-- ===== src/Args/Tests.antt =====
-- The options of src/main.c at concrete inputs.
use pkt_sender.Prelude.{
  ℕ, ◌+◌, ◌-◌, ◌*◌, ◌≤◌, ◌≡◌, refl, arith, ◌⊎◌, true, false, ◌&&◌, List, [], ◌∷◌, ◌++◌, Option,
  none, some, if◌then◌else◌, leb,
}
use pkt_sender.Config.Defs.{LcoreParams}
use pkt_sender.Args.Defs.{TextCalls, refused, accepted, split_at, parse_config}
use pkt_sender.Args.Options.{
  ArgCalls, Opt, portmask_opt, rate_opt, long_opt, ArgState, option_config, parse_args,
}
use pkt_sender.Args.RoundTrip.{
  split_at-append, decimal, ReadsTexts, config_text, parse_config-config_text,
}
use pkt_sender.Args.Stale.{parse_config-stale}
use pkt_sender.Args.Accepted.{ArgsEndWell, parse_args-ArgsEndWell}

-- A `strtoul` for decimal digits.
read_digits : ℕ → List ℕ → ℕ
read_digits acc [] = acc
read_digits acc (x ∷ xs) =
    let rest = read_digits (acc * 10 + (x - 48)) xs in if leb 48 x && leb x 57 then rest else acc

read_digits-decimal : (n : ℕ) → n ≤ 255 → read_digits 0 (decimal n) ≡ n
unfolding read_digits decimal
read_digits-decimal n h = ground arith

-- An `rte_strsplit` that splits at two commas.
split_rest : List ℕ → Option (List ℕ × List ℕ) → List (List ℕ)
split_rest a none = a ∷ []
split_rest a (some (b, c)) = a ∷ b ∷ c ∷ []

split_fields : Option (List ℕ × List ℕ) → List (List ℕ)
split_fields none = []
split_fields (some (a, r)) = split_rest a (split_at 44 r)

abbrev text_calls : TextCalls
text_calls = record {
  strtoul = λ s. record { sets_errno = false; no_digits = false; val = read_digits 0 s };
  rte_strsplit = λ s. split_fields (split_at 44 s);
}

text_calls-ReadsTexts : ReadsTexts text_calls
unfolding split_fields split_rest
text_calls-ReadsTexts = record {
  reads = λ n h. rw (read_digits-decimal n h) refl;
  splits = λ a b c ha hb hc.
      rw (split_at-append 44 a (b ++ (44 ∷ c)) ha, split_at-append 44 b c hb) refl;
}

abbrev mappings : List LcoreParams
mappings =
    record { port_id = 0; job = 0; lcore_id = 1 }
    ∷ record { port_id = 12; job = 1; lcore_id = 255 }
    ∷ []

-- "(0,R,1),(12,T,255),"
as_text :
    config_text (44 ∷ []) mappings
    ≡ 40 ∷ 48 ∷ 44 ∷ 82 ∷ 44 ∷ 49 ∷ 41 ∷ 44 ∷ 40 ∷ 49 ∷ 50 ∷ 44 ∷ 84 ∷ 44 ∷ 50 ∷ 53 ∷ 53 ∷ 41 ∷ 44
      ∷ []
unfolding config_text decimal
as_text = refl

parse_config-config_text_example :
    parse_config text_calls false (config_text (44 ∷ []) mappings) ≡ accepted false mappings
parse_config-config_text_example =
    parse_config-config_text text_calls (44 ∷ []) mappings text_calls-ReadsTexts (refl, tt)
      (omega arith) (omega arith)

parse_config-stale_example :
    (parse_config text_calls true (40 ∷ 48 ∷ 41 ∷ []) ≡ refused true)
    ⊎ (parse_config text_calls true (40 ∷ 48 ∷ 41 ∷ []) ≡ accepted true [])
parse_config-stale_example = parse_config-stale text_calls (40 ∷ 48 ∷ 41 ∷ [])

abbrev arg_calls : ArgCalls
arg_calls = record {
  text = text_calls;
  strtoul_16 = λ e s. record { val = 3; errno = e; to_end = true };
  strtol = λ e s. (record { fails = false; negative = false; val = 7; unit = 107 }, e);
  sscanf = λ s. s;
}

abbrev at_start : ArgState
at_start = record {
  portmask = 0;
  tx_rate = 0;
  prefix = none;
  lcore_params = none;
  dst_mac = record { byte0 = 0; byte1 = 0; byte2 = 0; byte3 = 0; byte4 = 0; byte5 = 0 };
  errno = false;
}

abbrev options : List Opt
options =
    portmask_opt (51 ∷ [])
    ∷ rate_opt (55 ∷ 107 ∷ [])
    ∷ long_opt option_config (config_text [] mappings)
    ∷ []

parse_args-ArgsEndWell_example : ArgsEndWell (parse_args arg_calls options at_start)
parse_args-ArgsEndWell_example = parse_args-ArgsEndWell arg_calls options at_start tt
