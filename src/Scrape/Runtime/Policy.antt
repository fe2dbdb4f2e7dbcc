-- ===== src/Scrape/Runtime/Policy.antt =====
-- What `loaded_policy` of src/monitoring/scrape.py has seen when it returns.
use dragontools.Common.{
  ◌≡◌, refl, subst, ◌⊎◌, inl, inr, true, ◌++◌, List, [], ◌∷◌, Text, codes, drop, length, splitlines,
  starts_with, Every, Every-mono, Member, ==-sound, nat_eq, list_eq, &&-true,
}
use dragontools.Common.Json.Read.{text_of}
use dragontools.Common.Keys.{contains_key, all_in, Every-at}
use dragontools.Common.Json.{Json, get}
use dragontools.Common.Result.{ok, bind-ok, demand-ok, demand-true, ok-injective}
use dragontools.Scrape.Runtime.{Host, Labels, Registration, json_response, application_definitions}
use dragontools.Scrape.Runtime.Loaded.{
  loaded_global, policy_of, blocks, job_of, is_static, check_block, check_blocks, wanted_jobs,
  check_config, loaded_policy,
}

-- A block of the job: it begins with the whole policy, and only targets follow.
abbrev pub IsBlock : Text → Text → Type 0
IsBlock job block =
    (job_of block ≡ job)
    × (starts_with block (policy_of job) ≡ true)
    × (is_static (splitlines (drop (length (policy_of job)) block)) ≡ true)

abbrev HasBlock : List Text → Text → Type 0
HasBlock bs job = (b : Text) × Member b bs × IsBlock job b

check_block-IsBlock :
    (jobs seen : List Text) (b job : Text) → check_block jobs seen b ≡ ok job → IsBlock job b
unfolding check_block
check_block-IsBlock jobs seen b job h =
    let (known, h1) = demand-ok _ _ job h in
    let (policy, h2) = demand-ok _ _ job h1 in
    let (static, h3) = demand-ok _ _ job h2 in
    subst (λ j. IsBlock j b) (ok-injective h3) (refl, policy, static)

check_blocks-HasBlock :
    (jobs seen bs js : List Text) → check_blocks jobs seen bs ≡ ok js → Every (HasBlock bs) js
unfolding check_blocks
check_blocks-HasBlock jobs seen [] js h = subst (Every (HasBlock [])) (ok-injective h) tt
check_blocks-HasBlock jobs seen (b ∷ bs) js h =
    let (job, c, h1) = bind-ok _ _ js h in
    let (rest, r, h2) = bind-ok _ _ js h1 in
    subst (Every (HasBlock (b ∷ bs))) (ok-injective h2) (
      (b, inl refl, check_block-IsBlock jobs seen b job c),
      Every-mono _ _ (λ j (d, m, s). (d, inr m, s)) rest
          (check_blocks-HasBlock jobs (job ∷ seen) bs rest r),
    )

wanted_at :
    (P : Text → Type 0) (jobs seen : List Text)
    → all_in jobs seen ≡ true
    → Every P seen
    → Every P jobs
wanted_at P [] seen h p = tt
wanted_at P (j ∷ js) seen h p =
    let (this, rest) = &&-true (contains_key j seen) (all_in js seen) h in
    (Every-at P j seen this p, wanted_at P js seen rest p)

-- The loaded configuration: the global part alone, or this part and a block for each job.
abbrev pub HasPolicy : List Text → Text → Type 0
HasPolicy jobs config =
    ((jobs ≡ []) × (config ≡ loaded_global))
    ⊎ ((starts_with config (loaded_global ++ codes "scrape_configs:\n") ≡ true)
        × Every
            (HasBlock (blocks (drop (length (loaded_global ++ codes "scrape_configs:\n")) config)))
            jobs)

check_config-HasPolicy :
    (jobs : List Text) (config : Text) → check_config jobs config ≡ ok tt → HasPolicy jobs config
unfolding check_config
check_config-HasPolicy [] config h = inl (refl, ==-sound config loaded_global (demand-true _ tt h))
check_config-HasPolicy (j ∷ js) config h =
    let (prefix, h1) = demand-ok _ _ tt h in
    let (seen, c, h2) = bind-ok _ _ tt h1 in
    let (sound, complete) =
      &&-true (all_in seen (j ∷ js)) (all_in (j ∷ js) seen) (demand-true _ tt h2) in
    inr (prefix, wanted_at _ (j ∷ js) seen complete (check_blocks-HasBlock (j ∷ js) [] _ seen c))

-- The configuration that is loaded, and the jobs that it is checked for.
abbrev pub IsConfigured : Host → List (Text × Labels) → Type 0
IsConfigured host own =
    (part : Json) × (config : Text) × (rs : List Registration) × (json_response host
        (codes "/api/v1/status/config")
      ≡ ok part)
    × (text_of (get (codes "yaml") part) ≡ ok config)
    × (host.registrations ≡ ok rs)
    × HasPolicy (wanted_jobs own (application_definitions rs [])) config

-- When `loaded_policy` returns, the configuration that VictoriaMetrics reports is the global part
-- alone, where no job is wanted, or begins with the global part and has for every job of the
-- applications, and of the station if it has probes, a block which begins with the whole policy of
-- the job and in which only lines of targets follow.
pub loaded_policy-IsConfigured :
    (host : Host) (own : List (Text × Labels))
    → loaded_policy host own ≡ ok tt
    → IsConfigured host own
unfolding loaded_policy
loaded_policy-IsConfigured host own h =
    let (part, p, h1) = bind-ok _ _ tt h in
    let (config, c, h2) = bind-ok _ _ tt h1 in
    let (rs, r, h3) = bind-ok _ _ tt h2 in
    (part, config, rs, p, c, r, check_config-HasPolicy _ config h3)
