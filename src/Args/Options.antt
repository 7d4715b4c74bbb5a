-- ===== src/Args/Options.antt =====
-- `__parse_args` of src/main.c with the functions that it calls. `getopt_long` is a parameter, as the
-- options that it gives one after the other; so are `strtoul`, `strtol` and `sscanf`.
use pkt_sender.Prelude.{
  ℕ, Bool, true, false, not, ◌&&◌, ◌||◌, List, [], ◌∷◌, Option, none, some, if◌then◌else◌, ltb,
  ◌==◌,
}
use pkt_sender.Config.Defs.{LcoreParams}
use pkt_sender.Config.Rate.{Strtol, parse_rate}
use pkt_sender.Packet.Defs.{EtherAddr, pkt_seq_parse_mac}
use pkt_sender.Args.Defs.{TextCalls, ConfigEnd, out_of_fuel, refused, accepted, parse_config}

-- What `strtoul` with base 16 gives, from the `errno` before it: the number, whether `errno` is set after it, and whether it
-- reads up to the end of the text.
pub record Hex : Type 0 where
  pub val : ℕ
  pub errno : Bool
  pub to_end : Bool

-- `strtol` gives the `errno` after it, too.
pub record ArgCalls : Type 0 where
  pub text : TextCalls
  pub strtoul_16 : Bool → List ℕ → Hex
  pub strtol : Bool → List ℕ → Strtol × Bool
  pub sscanf : List ℕ → List ℕ

-- An option with its argument, where NULL is `none`; a long one with its name.
pub data Opt : Type 0 where
  portmask_opt rate_opt : List ℕ → Opt
  output_opt : Option (List ℕ) → Opt
  long_opt : List ℕ → List ℕ → Opt
  unknown_opt : Opt

-- The globals that the options set, and `errno`. `lcore_params` is NULL before a configuration is read.
pub record ArgState : Type 0 where
  pub portmask : ℕ
  pub tx_rate : ℕ
  pub prefix : Option (List ℕ)
  pub lcore_params : Option (List LcoreParams)
  pub dst_mac : EtherAddr
  pub errno : Bool

-- The end of the options: main goes on, it returns -1, it copies a text that is NULL, or the loop of
-- `__parse_config` does not end.
pub data ArgsEnd : Type 0 where
  proceeds invalid : ArgState → ArgsEnd
  crashes spins : ArgsEnd

-- `__STRNCMP`: two texts with their closing zeros are the same.
unfoldable pub same_text : List ℕ → List ℕ → Bool
same_text [] [] = true
same_text (x ∷ xs) (y ∷ ys) = (x == y) && same_text xs ys
same_text _ _ = false

-- "config" and "mac-dst"
abbrev pub option_config : List ℕ
option_config = 99 ∷ 111 ∷ 110 ∷ 102 ∷ 105 ∷ 103 ∷ []

abbrev pub option_mac_dst : List ℕ
option_mac_dst = 109 ∷ 97 ∷ 99 ∷ 45 ∷ 100 ∷ 115 ∷ 116 ∷ []

abbrev is_empty : List ℕ → Bool
is_empty [] = true
is_empty (x ∷ xs) = false

module _ (calls : ArgCalls) where
  -- The state, and the answer in 8 bits: -1 is 255.
  unfoldable pub parse_portmask : ArgState → List ℕ → ArgState × ℕ
  parse_portmask s str =
      let r = calls.strtoul_16 s.errno str in
      (
        record s { portmask = r.val; errno = r.errno },
        if is_empty str || not r.to_end then 255 else if (r.val == 0) && r.errno then 255 else 0,
      )

  -- What is left of the configuration, by its end.
  unfoldable pub with_config : ArgState → ConfigEnd → Option (ArgState × Bool)
  with_config s out_of_fuel = none
  with_config s (refused errno) = some (record s { errno = errno }, false)
  with_config s (accepted errno params) =
      some (record s { errno = errno; lcore_params = some params }, true)

  -- The state, and whether the answer is 0; no answer if the loop does not end.
  unfoldable pub parse_args_long_options : ArgState → List ℕ → List ℕ → Option (ArgState × Bool)
  parse_args_long_options s optname optarg =
      if same_text optname option_config
      then with_config s (parse_config calls.text s.errno optarg)
      else if same_text optname option_mac_dst
      then some (
        record s { dst_mac = (pkt_seq_parse_mac calls.sscanf optarg s.dst_mac).0 },
        (pkt_seq_parse_mac calls.sscanf optarg s.dst_mac).1,
      )
      else some (s, false)

  -- The loop goes on, or has its end.
  unfoldable pub after_long : Option (ArgState × Bool) → (ArgState → ArgsEnd) → ArgsEnd
  after_long none next = spins
  after_long (some (s, true)) next = next s
  after_long (some (s, false)) next = invalid s

  unfoldable pub after_output : ArgState → Option (List ℕ) → (ArgState → ArgsEnd) → ArgsEnd
  after_output s none next = crashes
  after_output s (some optarg) next = next (record s { prefix = some optarg })

  -- One round of the loop. A `ret` that comes from 8 bits is at least 0, so that no mask is refused.
  unfoldable pub parse_opt : Opt → ArgState → (ArgState → ArgsEnd) → ArgsEnd
  parse_opt (portmask_opt optarg) s next =
      let (s', ret) = parse_portmask s optarg in if ltb ret 0 then invalid s' else next s'
  parse_opt (rate_opt optarg) s next =
      let (r, errno) = calls.strtol s.errno optarg in
      next (record s { tx_rate = parse_rate r; errno = errno })
  parse_opt (output_opt optarg) s next = after_output s optarg next
  parse_opt (long_opt optname optarg) s next =
      after_long (parse_args_long_options s optname optarg) next
  parse_opt unknown_opt s next = invalid s

  unfoldable pub parse_args : List Opt → ArgState → ArgsEnd
  parse_args [] s = proceeds s
  parse_args (opt ∷ opts) s = parse_opt opt s (λ s'. parse_args opts s')
