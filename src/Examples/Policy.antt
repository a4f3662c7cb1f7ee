-- ===== src/Examples/Policy.antt =====
-- The policy gates on concrete actions.
use github_auto_dev.Base.{ℕ, ◌≡◌, refl, ◌↔◌, none, some, [], ◌∷◌, true, All}
use github_auto_dev.Policy.{
  GateShas, BoundAction, merge, CheckArgs, allow, deny, check, bind, missing, approval_sha,
  stale_head, StalenessArgs, old_generation, classify_staleness, required,
}
use github_auto_dev.Policy.Guard.{ShaHolds, own_state, check-allow_iff, bind-check}

abbrev shas : GateShas
shas = record {
  spec = none;
  plan = none;
  approval = some "ap1";
  head = some "h1";
  base = none;
  issue_snapshot = none;
}

abbrev merge_action : BoundAction
merge_action = record { kind = merge; generation = 3; shas = shas }

abbrev pushed : CheckArgs
pushed = record {
  action = merge_action;
  current_generation = 3;
  current_head = some "h2";
  current_issue_snapshot = none;
}

pushed_denied : check pushed ≡ record { decision = deny; reasons = stale_head "h1" "h2" ∷ [] }
unfolding check
pushed_denied = refl

unapproved : bind merge 3 (record shas { approval = none }) ≡ missing merge (approval_sha ∷ [])
unfolding bind
unapproved = refl

check-allow_iff_example :
    ((check pushed).decision ≡ allow) ↔ (◌≡◌ {A = ℕ} 3 3 × All (ShaHolds pushed) (required merge))
check-allow_iff_example = check-allow_iff pushed

bind-check_example :
    (merge_action ≡ record { kind = merge; generation = 3; shas = shas })
    × ((check (own_state merge_action)).decision ≡ allow)
bind-check_example = bind-check merge 3 shas merge_action (unfold bind in refl)

abbrev late : StalenessArgs
late = record {
  event_generation = some 2;
  event_head = some "h1";
  event_issue_snapshot = none;
  current_generation = 3;
  current_head = none;
  current_issue_snapshot = none;
}

late_stale : classify_staleness late ≡ record { stale = true; reason = old_generation }
unfolding classify_staleness
late_stale = refl
