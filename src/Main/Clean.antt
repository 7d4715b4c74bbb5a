-- ===== src/Main/Clean.antt =====
-- When everything that `main` of src/main.c takes is released.
use pkt_sender.Prelude.{
  ℕ, ◌≡◌, refl, arith, Bool, true, false, ◌&&◌, List, [], ◌∷◌, Option, none, some, if◌then◌else◌,
}
use pkt_sender.Port.Running.{runs}
use pkt_sender.Port.Pools.{Pool}
use pkt_sender.Port.Tracked.{track}
use pkt_sender.Main.Defs.{
  Resource, port_table, stat_table, probe_table, probe_pool, stat_timer, probe_timer, ResourceCall,
  takes, releases, MainLog,
}

unfoldable pub same_resource : Resource → Resource → Bool
same_resource port_table port_table = true
same_resource stat_table stat_table = true
same_resource probe_table probe_table = true
same_resource probe_pool probe_pool = true
same_resource stat_timer stat_timer = true
same_resource probe_timer probe_timer = true
same_resource _ _ = false

-- Whether the resource is taken after the calls, if it is before them or not. It is an error to take
-- it twice, and to release it when it is not taken.
unfoldable pub taken : Resource → Bool → List ResourceCall → Option Bool
unfolding same_resource
taken r b [] = some b
taken r b (takes s ∷ calls) =
    let rest = taken r (if same_resource r s then true else b) calls in
    if same_resource r s && b then none else rest
taken r b (releases s ∷ calls) =
    let rest = taken r (if same_resource r s then false else b) calls in
    if same_resource r s then (if b then rest else none) else rest

-- No pool, no resource and no device is left over; none is released twice.
pub record IsClean (log : MainLog) : Type 0 where
  pub pools : (x : Pool) → track x false log.pools ≡ some false
  pub devices : (p : ℕ) → runs p false log.devices ≡ false
  pub resources : (r : Resource) → taken r false log.resources ≡ some false

abbrev pub is_released : Option Bool → Bool
is_released (some false) = true
is_released _ = false

is_released_lem : (o : Option Bool) → is_released o ≡ true → o ≡ some false
is_released_lem (some false) h = refl
is_released_lem (some true) h = cc
is_released_lem none h = cc

-- All six are released.
abbrev pub settled : List ResourceCall → Bool
settled calls =
    is_released (taken port_table false calls)
    && (is_released (taken stat_table false calls)
        && (is_released (taken probe_table false calls)
            && (is_released (taken probe_pool false calls)
                && (is_released (taken stat_timer false calls)
                    && is_released (taken probe_timer false calls)))))

pub settled_lem :
    (calls : List ResourceCall)
    → settled calls ≡ true
    → (r : Resource) → taken r false calls ≡ some false
settled_lem calls h port_table = is_released_lem (taken port_table false calls) (ground arith)
settled_lem calls h stat_table = is_released_lem (taken stat_table false calls) (ground arith)
settled_lem calls h probe_table = is_released_lem (taken probe_table false calls) (ground arith)
settled_lem calls h probe_pool = is_released_lem (taken probe_pool false calls) (ground arith)
settled_lem calls h stat_timer = is_released_lem (taken stat_timer false calls) (ground arith)
settled_lem calls h probe_timer = is_released_lem (taken probe_timer false calls) (ground arith)
