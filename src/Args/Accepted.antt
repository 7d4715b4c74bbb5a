-- ===== src/Args/Accepted.antt =====
-- What `__parse_args` of src/main.c leaves.
use pkt_sender.Prelude.{
  ℕ, ◌≤◌, inl, inr, Bool, true, false, List, [], ◌∷◌, Option, none, some, length, ltb, Bool-cases,
}
use pkt_sender.Config.Defs.{LcoreParams, max_lcore_params}
use pkt_sender.Args.Defs.{ConfigEnd, out_of_fuel, refused, accepted, parse_config}
use pkt_sender.Args.Bounds.{AllFit, EndsWell, parse_config-EndsWell}
use pkt_sender.Args.Options.{
  ArgCalls, Opt, portmask_opt, rate_opt, output_opt, long_opt, unknown_opt, ArgState, ArgsEnd,
  proceeds, invalid, crashes, spins, same_text, option_config, option_mac_dst, parse_portmask,
  with_config, parse_args_long_options, after_long, after_output, parse_opt, parse_args,
}

-- The mappings stand in their array, and their fields fit.
abbrev ListFits : Option (List LcoreParams) → Type 0
ListFits none = Unit
ListFits (some params) = (length params ≤ max_lcore_params) × AllFit params

abbrev pub MappingsFit : ArgState → Type 0
MappingsFit s = ListFits s.lcore_params

-- The loop over the options ends, and where main goes on, the mappings fit.
abbrev pub ArgsEndWell : ArgsEnd → Type 0
ArgsEndWell (proceeds s) = MappingsFit s
ArgsEndWell (invalid s) = Unit
ArgsEndWell crashes = Unit
ArgsEndWell spins = ⊥

abbrev LongEndsWell : Option (ArgState × Bool) → Type 0
LongEndsWell none = ⊥
LongEndsWell (some (s, ok)) = MappingsFit s

module _ (calls : ArgCalls) where
  with_config-LongEndsWell :
      (s : ArgState) (end : ConfigEnd)
      → EndsWell end
      → MappingsFit s
      → LongEndsWell (with_config calls s end)
  unfolding with_config
  with_config-LongEndsWell s out_of_fuel h fit = h
  with_config-LongEndsWell s (refused errno) h fit = fit
  with_config-LongEndsWell s (accepted errno params) h fit = h

  long_options-LongEndsWell :
      (s : ArgState) (optname optarg : List ℕ)
      → MappingsFit s
      → LongEndsWell (parse_args_long_options calls s optname optarg)
  unfolding parse_args_long_options
  long_options-LongEndsWell s optname optarg fit =
      elim (Bool-cases (same_text optname option_config)) [
        | inl e ↦ rw e (
            with_config-LongEndsWell s (parse_config calls.text s.errno optarg)
              (parse_config-EndsWell calls.text s.errno optarg) fit)
        | inr e ↦ elim (Bool-cases (same_text optname option_mac_dst)) [
          | inl f ↦ rw (e, f) fit
          | inr f ↦ rw (e, f) fit
        ]
      ]

  module _ (next : ArgState → ArgsEnd)
      (go : (s : ArgState) → MappingsFit s → ArgsEndWell (next s)) where
    after_long-ArgsEndWell :
        (o : Option (ArgState × Bool)) → LongEndsWell o → ArgsEndWell (after_long calls o next)
    unfolding after_long
    after_long-ArgsEndWell none h = h
    after_long-ArgsEndWell (some (s, true)) h = go s h
    after_long-ArgsEndWell (some (s, false)) h = tt

    parse_opt-ArgsEndWell :
        (opt : Opt) (s : ArgState) → MappingsFit s → ArgsEndWell (parse_opt calls opt s next)
    unfolding parse_opt after_output parse_portmask
    parse_opt-ArgsEndWell (portmask_opt str) s fit =
        elim (Bool-cases (ltb (parse_portmask calls s str).1 0)) [
          | inl e ↦ rw e tt
          | inr e ↦ rw e (go (parse_portmask calls s str).0 fit)
        ]
    parse_opt-ArgsEndWell (rate_opt str) s fit = go _ fit
    parse_opt-ArgsEndWell (output_opt none) s fit = tt
    parse_opt-ArgsEndWell (output_opt (some str)) s fit = go _ fit
    parse_opt-ArgsEndWell (long_opt name str) s fit =
        after_long-ArgsEndWell (parse_args_long_options calls s name str)
          (long_options-LongEndsWell s name str fit)
    parse_opt-ArgsEndWell unknown_opt s fit = tt

  -- For all options and all texts in them, from a state whose mappings fit: the parsing ends,
  -- and where main goes on with mappings, they are at most 128, with ports and lcores that fit
  -- a byte and with one of the two jobs.
  pub parse_args-ArgsEndWell :
      (opts : List Opt) (s : ArgState) → MappingsFit s → ArgsEndWell (parse_args calls opts s)
  unfolding parse_args
  parse_args-ArgsEndWell [] s fit = fit
  parse_args-ArgsEndWell (opt ∷ opts) s fit =
      parse_opt-ArgsEndWell (λ s'. parse_args calls opts s') (parse_args-ArgsEndWell opts) opt s fit
