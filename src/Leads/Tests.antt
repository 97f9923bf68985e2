-- ===== src/Leads/Tests.antt =====
-- Requests of one client under a rule of two in a minute.
use coreops_platform.Base.{◌≡◌, ◌≤◌, refl, false, List, [], ◌∷◌, inl, arith}
use coreops_platform.Leads.RateLimit.{RateLimitRule, Bucket, check_rules, check_and_increment}
use coreops_platform.Leads.Buckets.{count_from}
use coreops_platform.Leads.Windows.{Requests, accepted_bound}

abbrev rule : RateLimitRule
rule = record { window_seconds = 60; max_requests = 2 }

abbrev rules : List RateLimitRule
rules = rule ∷ []

abbrev full : List Bucket
full = record { key = "unknown"; window = 60; stamps = 5 ∷ 6 ∷ [] } ∷ []

-- The third request is refused.
three_requests : Requests rules "unknown" full 7 (6 ∷ 5 ∷ [])
unfolding check_and_increment check_rules
three_requests =
    Requests.request "unknown" 7
      (Requests.request "" 6
        (Requests.request "unknown" 5 (Requests.none_yet {now = 0}) (omega arith)) (omega arith))
      (omega arith)

accepted_bound_example : count_from 0 (6 ∷ 5 ∷ []) ≤ 2
accepted_bound_example =
    accepted_bound rules "unknown" rule (inl refl) refl full 7 (6 ∷ 5 ∷ []) 0 three_requests
      (omega arith)

-- A request that a rule refuses is counted by the rules before it.
abbrev two_rules : List RateLimitRule
two_rules =
    record { window_seconds = 3600; max_requests = 9 }
    ∷ record { window_seconds = 60; max_requests = 1 }
    ∷ []

abbrev once : List Bucket
once = (check_and_increment "a" 5 [] two_rules).1

charged_lem : check_and_increment "a" 6 once two_rules ≡ (
  false,
  record { key = "a"; window = 3600; stamps = 5 ∷ 6 ∷ [] }
      ∷ record { key = "a"; window = 60; stamps = 5 ∷ [] }
      ∷ [],
)
unfolding check_and_increment check_rules
charged_lem = refl
