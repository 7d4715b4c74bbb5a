-- ===== src/Probe/Defs.antt =====
-- The functions of src/probe.c that send probes. DPDK is a parameter: whether memory is given, whether
-- the pool has an mbuf, and whether the driver takes a packet.
use pkt_sender.Prelude.{
  ℕ, zero, suc, ◌+◌, ◌%◌, ◌^◌, Bool, true, false, ◌&&◌, List, [], ◌∷◌, ◌++◌, Option, none, some,
  if◌then◌else◌, replicate,
}

-- The constants of probe.h, pt_trace.h and port.h.
abbrev pub probe_pkt_len : ℕ
probe_pkt_len = 60

abbrev pub probe_pkt_magic : ℕ
probe_pkt_magic = 0x12345678

abbrev pub probe_pkt_ether_type : ℕ
probe_pkt_ether_type = 0x88F7

abbrev pub txq_latency : ℕ
txq_latency = 1

-- The addresses of a `struct pkt_seq`, and the two fields that `__init_local_probe` sets.
pub record PktConfigure : Type 0 where
  pub src_mac : List ℕ
  pub dst_mac : List ℕ
  pub proto : ℕ
  pub config_len : ℕ

-- A probe packet: the fields of a `struct pkt_fmt`, its type in the order of the host, its length and
-- whether the device is asked for a time stamp.
pub record ProbePkt : Type 0 where
  pub source : List ℕ
  pub destination : List ℕ
  pub ether_type : ℕ
  pub ptp_msg_id : ℕ
  pub ptp_version : ℕ
  pub probe_id : ℕ
  pub sender : ℕ
  pub probe_magic : ℕ
  pub data_len : ℕ
  pub is_stamped : Bool

-- `next_pkt` is what the mbuf holds: that the code frees an mbuf which the driver has, so that the
-- pool may give it out again, is not followed.
pub record ProbeCtl : Type 0 where
  pub portid : ℕ
  pub queueid : ℕ
  pub next_idx : ℕ
  pub next_pkt : Option ProbePkt
  pub pkt_configure : PktConfigure

-- What a probe does with the device: it prepares the trace, hands over the packet, and, if the driver
-- takes it, records the trace and frees the packet.
pub data ProbeEvent : Type 0 where
  prepares : ℕ → ProbeEvent
  transmits : ℕ → ℕ → ProbePkt → Bool → ProbeEvent
  records : ℕ → ProbePkt → ProbeEvent
  frees : ProbePkt → ProbeEvent

-- `IPPROTO_UDP`
abbrev pub probe_pkt_proto : ℕ
probe_pkt_proto = 17

unfoldable pub init_local_probe : PktConfigure → ℕ → ℕ → ProbeCtl
init_local_probe seq portid queueid = record {
  portid = portid;
  queueid = queueid;
  next_idx = 0;
  next_pkt = none;
  pkt_configure = record seq { proto = probe_pkt_proto; config_len = probe_pkt_len };
}

-- An element that `memset` has cleared.
abbrev pub cleared_ctl : ProbeCtl
cleared_ctl = record {
  portid = 0;
  queueid = 0;
  next_idx = 0;
  next_pkt = none;
  pkt_configure = record {
    src_mac = replicate 6 0;
    dst_mac = replicate 6 0;
    proto = 0;
    config_len = 0;
  };
}

-- The loop over the ports, with `n` ports left from `i` on.
unfoldable pub init_probes : (ℕ → Bool) → (ℕ → PktConfigure) → ℕ → ℕ → List ProbeCtl
init_probes enabled seq zero i = []
init_probes enabled seq (suc n) i =
    (if enabled i then init_local_probe (seq i) i txq_latency else cleared_ctl)
    ∷ init_probes enabled seq n (suc i)

-- `probe_init`: the list of controllers, or none where it fails.
unfoldable pub probe_init :
    (ℕ → Bool) → (ℕ → PktConfigure) → Bool → Bool → ℕ → Option (List ProbeCtl)
probe_init enabled seq malloc_ok pool_ok nb_ports =
    if malloc_ok && pool_ok then some (init_probes enabled seq nb_ports 0) else none

-- The packet that `__construct_probe` fills in.
unfoldable pub probe_of : ProbeCtl → ProbePkt
probe_of c = record {
  source = c.pkt_configure.src_mac;
  destination = c.pkt_configure.dst_mac;
  ether_type = probe_pkt_ether_type;
  ptp_msg_id = 0;
  ptp_version = 2;
  probe_id = c.next_idx;
  sender = c.portid;
  probe_magic = probe_pkt_magic;
  data_len = probe_pkt_len;
  is_stamped = true;
}

-- `__construct_probe`, where the pool has an mbuf or not: the controller with its next packet.
unfoldable pub construct_probe : Bool → ProbeCtl → Option ProbeCtl
construct_probe false c = none
construct_probe true c =
    some (record c { next_pkt = some (probe_of c); next_idx = (c.next_idx + 1) % 2 ^ 64 })

-- The controller before it sends: the packet that is left from before, or a new one.
unfoldable pub with_packet : Bool → ProbeCtl → Option ProbePkt → Option (ProbeCtl × ProbePkt)
with_packet alloc c (some p) = some (c, p)
with_packet alloc c none = elim (construct_probe alloc c) [
  | none ↦ none
  | some c' ↦ some (c', probe_of c)
]

-- The end of a round of the loop: the driver takes the packet or not.
unfoldable pub send_probe : Bool → ProbeCtl → ProbePkt → ProbeCtl × List ProbeEvent
send_probe false c p = (c, prepares c.portid ∷ transmits c.portid c.queueid p false ∷ [])
send_probe true c p = (
  record c { next_pkt = none },
  prepares c.portid ∷ transmits c.portid c.queueid p true ∷ records c.portid p ∷ frees p ∷ [],
)

-- A round for an enabled port, before the rounds of the others; without an mbuf the loop is left.
unfoldable pub send_then :
    Bool
    → ProbeCtl
    → List ProbeCtl
    → Option (ProbeCtl × ProbePkt)
    → List ProbeCtl × List ProbeEvent
    → List ProbeCtl × List ProbeEvent
send_then taken c cs none rest = (c ∷ cs, [])
send_then taken c cs (some (c', p)) (cs', events) =
    let (c'', first) = send_probe taken c' p in (c'' ∷ cs', first ++ events)

-- The loop, from port `i` on. `alloc` and `taken` are the answers for each port.
unfoldable pub send_probes :
    (ℕ → Bool) → (ℕ → Bool) → (ℕ → Bool) → ℕ → List ProbeCtl → List ProbeCtl × List ProbeEvent
send_probes enabled alloc taken i [] = ([], [])
send_probes enabled alloc taken i (c ∷ cs) =
    let rest = send_probes enabled alloc taken (suc i) cs in
    if enabled i
    then send_then (taken i) c cs (with_packet (alloc i) c c.next_pkt) rest
    else (c ∷ rest.0, rest.1)

-- `__process_probe`, where the TX jobs run or not.
unfoldable pub process_probe :
    Bool → (ℕ → Bool) → (ℕ → Bool) → (ℕ → Bool) → List ProbeCtl → List ProbeCtl × List ProbeEvent
process_probe is_tx enabled alloc taken cs =
    if is_tx then send_probes enabled alloc taken 0 cs else (cs, [])
