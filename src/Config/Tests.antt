-- ===== src/Config/Tests.antt =====
-- The check of the mappings at concrete inputs.
use pkt_sender.Prelude.{
  ℕ, ◌≡◌, refl, true, false, List, [], ◌∷◌, ◌++◌, arith, ltb, ◌&&◌, take, replicate,
}
use pkt_sender.Port.Defs.{Ports, port_is_enabled, parse_ports, port_parse_opt}
use pkt_sender.Port.Mask.{in_mask, port_parse_opt-enabled}
use pkt_sender.Config.Defs.{
  LcoreParams, Machine, max_lcore_params, unset, is_valid, same_queue, is_dup, check_one,
  check_loop, check_mapping,
}
use pkt_sender.Config.Assign.{Assigned, add_port, assign_one, init_lcore_port}
use pkt_sender.Config.Lists.{IsJob, Gets, wanted, init_lcore_port-Gets}
use pkt_sender.Config.Rate.{parse_rate, scale}
use pkt_sender.Config.Kept.{kept}
use pkt_sender.Config.Measured.{measurements, Gives, check_mapping-Gives}
use pkt_sender.Config.Distinct.{AreValid, AreApart, check_loop-apart}

-- Ports 0 and 2 of four, by their mask.
abbrev two_enabled : Ports
two_enabled = (port_parse_opt 128 4 true 5).0

-- Eight lcores, the first of them for statistics.
abbrev machine : Machine
machine = record {
  nb_ports = 4;
  ports = two_enabled;
  stat_lcore = 0;
  lcore_is_enabled = λ l. ltb l 8;
}

abbrev mapping : ℕ → ℕ → ℕ → LcoreParams
mapping p j l = record { port_id = p; job = j; lcore_id = l }

-- The second is for a port that is not enabled, the third for a queue that has a mapping.
abbrev params : List LcoreParams
params = mapping 0 1 1 ∷ mapping 1 1 2 ∷ mapping 0 1 3 ∷ mapping 2 0 1 ∷ replicate 124 unset

check_loop-params : (check_loop machine 4 0 params 0).1 ≡ 2
unfolding check_loop check_one is_valid is_dup same_queue port_is_enabled port_parse_opt parse_ports
check_loop-params = refl

port_parse_opt-enabled_example : port_is_enabled two_enabled 2 ≡ (ltb 2 4 && in_mask 5 2)
unfolding port_parse_opt parse_ports
port_parse_opt-enabled_example = port_parse_opt-enabled 128 4 5 2 (omega arith)

check_loop-apart_example :
    let (params', real_cnt) = check_loop machine 4 0 params 0 in
    AreValid machine (take real_cnt params') × AreApart (take real_cnt params')
check_loop-apart_example = check_loop-apart machine params 4 (omega arith)

check_mapping-Gives_example :
    Gives
      (check_mapping machine params 4)
      (take max_lcore_params (kept machine [] (take 4 params) ++ measurements machine 4 0))
check_mapping-Gives_example =
    check_mapping-Gives machine params 4 refl (omega arith) (omega (arith, check_loop-params))

-- No job has a port yet.
abbrev nothing : Assigned
nothing = record {
  jobs = λ lcore job. record { nb_ports = 0; port_list = replicate 4 0 };
  ports = two_enabled;
}

-- Two ports for the TX job of lcore 1.
abbrev pair : List LcoreParams
pair = mapping 0 1 1 ∷ mapping 2 0 1 ∷ mapping 2 1 1 ∷ []

nothing-IsJob : IsJob (nothing.jobs 1 1)
nothing-IsJob = record { room = refl; most = omega arith }

pair_fits : (init_lcore_port 0 pair nothing).1 ≡ true
unfolding init_lcore_port assign_one add_port
pair_fits = refl

init_lcore_port-Gets_example :
    Gets (nothing.jobs 1 1) (wanted 1 1 pair) ((init_lcore_port 0 pair nothing).0.jobs 1 1)
init_lcore_port-Gets_example = init_lcore_port-Gets 0 1 1 pair nothing nothing-IsJob pair_fits

-- "1g" is 2 ^ 40, which is 2 ^ 20 times "1m".
rate_1g :
    parse_rate (record { fails = false; negative = false; val = 1; unit = 103 }) ≡ 1099511627776
unfolding parse_rate scale
rate_1g = refl

rate_2m : parse_rate (record { fails = false; negative = false; val = 2; unit = 109 }) ≡ 2097152
unfolding parse_rate scale
rate_2m = refl
