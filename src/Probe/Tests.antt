-- ===== src/Probe/Tests.antt =====
-- The probes of two ports, of which the driver of the second takes none at first.
use pkt_sender.Prelude.{◌≡◌, refl, true, false, List, [], ◌∷◌, some, ◌==◌, replicate}
use pkt_sender.Probe.Defs.{
  PktConfigure, ProbeCtl, probe_init, init_probes, init_local_probe, process_probe, send_probes,
  send_then, send_probe, with_packet, construct_probe, probe_of,
}
use pkt_sender.Probe.Sequence.{sent_on}
use pkt_sender.Probe.Run.{Tick, run}

abbrev config : PktConfigure
config = record { src_mac = replicate 6 1; dst_mac = replicate 6 2; proto = 0; config_len = 0 }

abbrev both : List ProbeCtl
both = init_local_probe config 0 1 ∷ init_local_probe config 1 1 ∷ []

init_both : probe_init (λ i. true) (λ i. config) true true 2 ≡ some both
unfolding probe_init init_probes
init_both = refl

abbrev ticks : List Tick
ticks =
    record { is_tx = true; alloc = λ i. true; taken = λ i. i == 0 }
    ∷ record { is_tx = true; alloc = λ i. false; taken = λ i. true }
    ∷ record { is_tx = true; alloc = λ i. true; taken = λ i. true }
    ∷ []

sent_first : sent_on 0 (run (λ i. true) both ticks) ≡ 0 ∷ 1 ∷ []
unfolding process_probe send_probes send_then send_probe with_packet construct_probe probe_of
    init_local_probe
sent_first = refl

sent_second : sent_on 1 (run (λ i. true) both ticks) ≡ 0 ∷ []
unfolding process_probe send_probes send_then send_probe with_packet construct_probe probe_of
    init_local_probe
sent_second = refl
