-- ===== src/Workflows/Actions/Depth.antt =====
-- What the executors of the actions do with the outbox, as the dispatcher needs it
-- (apps/api/src/workflows/runtime/action-executors).
use Prim.Native.String.{String}
use support_desk.Audit.{AuditEvent}
use support_desk.Base.{
  ℕ, ◌+◌, ◌≡◌, refl, sym, ap, subst, Text, codes, text_eq, Bool, true, false, ◌&&◌, Bool-cases,
  Option, none, some, List, [], ◌∷◌, any, or_else, inl, inr, if◌then◌else◌, Result, ok, err, ◌>>=◌,
  ◌∙◌, All, arith,
}
use support_desk.Outbox.{AppendOutboxParams, outbox_row, append_outbox_event, key_eq}
use support_desk.Workflows.Tables.{Domain}
use support_desk.Workflows.Dispatcher.Appends.{Appends, AppendsBelow, Appends-refl}
use support_desk.Workflows.Actions.{SlaTarget, Rows, ActionFresh, Context, Executor, publish}
use support_desk.Workflows.Actions.Others.{
  driven, change_asset_status, create_notification, sla_action,
}
use support_desk.Workflows.Actions.Registry.{executors, executor_table}
use support_desk.Workflows.Actions.Tickets.{named, change_status, assign, add_comment}

publish-Appends :
    (f : ActionFresh) (audit : AuditEvent) (event : AppendOutboxParams) (rows : Rows)
    (d d' : Domain Rows) (depth : ℕ)
    → event.automation_depth ≡ some depth
    → publish f audit event rows d ≡ ok d'
    → Appends 1 depth d.outbox d'.outbox
unfolding publish append_outbox_event outbox_row
publish-Appends f audit event rows d d' depth deep h =
    let row = outbox_row f.fresh event in
    elim (Bool-cases (
      any (λ e. text_eq e.tenant_id event.tenant_id && key_eq e.dedupe_key row.dedupe_key)
        d.outbox)) [
          | inl duplicate ↦ let wrong = rw (duplicate, publish) at h in cc
          | inr fresh ↦
              let result = rw (fresh, publish) at h in
              record {
                new_rows = row ∷ [];
                is_append = cc;
                is_bounded = omega arith;
                is_deeper = (ap (λ o. or_else o 0) deep, tt);
              }
        ]

-- A result that leaves at most one new event, of the depth `depth`.
record Deepens (depth : ℕ) (d : Domain Rows) (r : Result Text (Domain Rows)) : Type 0 where
  at_most_one : (d' : Domain Rows) → r ≡ ok d' → Appends 1 depth d.outbox d'.outbox

bind-Deepens :
    {A : Type 0} (depth : ℕ) (d : Domain Rows) (m : Result Text A)
    (k : A → Result Text (Domain Rows))
    → ((a : A) → Deepens depth d (k a))
    → Deepens depth d (m >>= k)
bind-Deepens depth d (ok a) k h = h a
bind-Deepens depth d (err e) k h = record { at_most_one = λ d' r. absurd (cc) }

abbrev or_domain : Domain Rows → Result Text (Domain Rows) → Domain Rows
or_domain e (ok d) = d
or_domain e (err m) = e

same-Deepens : (depth : ℕ) (d e : Domain Rows) → e.outbox ≡ d.outbox → Deepens depth d (ok e)
same-Deepens depth d e same = record {
  at_most_one = λ d' r.
      let out : d'.outbox ≡ d.outbox = sym (ap (λ x. (or_domain e x).outbox) r) ∙ same in
      rw out (Appends-refl 1 depth d.outbox);
}

publish-Deepens :
    (f : ActionFresh) (audit : AuditEvent) (event : AppendOutboxParams) (rows : Rows)
    (d : Domain Rows) (depth : ℕ)
    → event.automation_depth ≡ some depth
    → Deepens depth d (publish f audit event rows d)
publish-Deepens f audit event rows d depth deep = record {
  at_most_one = λ d' r. publish-Appends f audit event rows d d' depth deep r;
}

if-Deepens :
    (depth : ℕ) (d : Domain Rows) (b : Bool) (x y : Result Text (Domain Rows))
    → Deepens depth d x
    → Deepens depth d y
    → Deepens depth d (if b then x else y)
if-Deepens depth d true x y p q = p
if-Deepens depth d false x y p q = q

ruleset deepening = (bind-Deepens, if-Deepens, same-Deepens, publish-Deepens, refl)

module _ {N : Type 0} (f : ActionFresh) (c : Context N) (d : Domain Rows) where
  abbrev below : ℕ
  below = c.parent_depth + 1

  change_status-Deepens : Deepens below d (change_status f c d)
  unfolding change_status
  change_status-Deepens = search deepening

  assign-Deepens : Deepens below d (assign f c d)
  unfolding assign
  assign-Deepens = search deepening

  add_comment-Deepens : Deepens below d (add_comment f c d)
  unfolding add_comment
  add_comment-Deepens = search deepening

  change_asset_status-Deepens : Deepens below d (change_asset_status f c d)
  unfolding change_asset_status
  change_asset_status-Deepens = search deepening depth 9

  create_notification-Deepens : Deepens below d (create_notification f c d)
  unfolding create_notification
  create_notification-Deepens = search deepening

  driven-outbox :
      (change : SlaTarget → SlaTarget) (o : Option SlaTarget)
      → (driven change o d).outbox ≡ d.outbox
  driven-outbox change none = refl
  driven-outbox change (some t) = refl

  sla_action-Deepens : Deepens below d (sla_action f c d)
  unfolding sla_action
  sla_action-Deepens = search (deepening, driven-outbox)

-- A text names an executor only as its table does.
named-All :
    {A : Type 0} (Q : A → Type 0) (names : List (String × A)) (s : Text) (a : A)
    → All (λ (e : String × A). Q e.1) names
    → named names s ≡ some a
    → Q a
named-All Q [] s a h k = absurd (cc)
named-All Q ((name, b) ∷ names) s a h k = elim (Bool-cases (text_eq s (codes name))) [
  | inl this ↦ let same : b ≡ a = of_some b a (rw (this, if◌then◌else◌) at k) in subst Q same h.0
  | inr other ↦ named-All Q names s a h.1 (rw (other, if◌then◌else◌) at k)
]
  where
    of_some : {A : Type 0} (b a : A) → some b ≡ some a → b ≡ a
    of_some b a k = cc

-- An executor that appends at most one event, one depth below.
abbrev IsDeepening : {N : Type 0} → Executor N → Type 0
IsDeepening {N} execute =
    (c : Context N) (d : Domain Rows) → Deepens (c.parent_depth + 1) d (execute c d)

-- Every one of the executors that the service registers, where it succeeds, has appended at most one
-- event to the outbox, and that one depth below the event that its workflow runs for.
pub executors-Appends :
    {N : Type 0} (f : ActionFresh) (name : Text) (execute : Executor N)
    → executors f name ≡ some execute
    → (c : Context N) (d d' : Domain Rows) → execute c d ≡ ok d'
    → Appends 1 (c.parent_depth + 1) d.outbox d'.outbox
unfolding executors
executors-Appends f name execute h c d d' r =
    let all : IsDeepening execute =
      named-All IsDeepening (executor_table f) name execute
        (
          (λ c d. change_status-Deepens f c d),
          (
            (λ c d. change_asset_status-Deepens f c d),
            (
              (λ c d. assign-Deepens f c d),
              (
                (λ c d. add_comment-Deepens f c d),
                (
                  (λ c d. create_notification-Deepens f c d),
                  ((λ c d. sla_action-Deepens f c d), ((λ c d. sla_action-Deepens f c d), tt)),
                ),
              ),
            ),
          ),
        )
        h in
    (all c d).at_most_one d' r

-- The registered executors meet what a chain of dispatches asks of its executors, with m = 1.
executors-AppendsBelow : {N : Type 0} (f : ActionFresh) → AppendsBelow 1 (executors {N = N} f)
executors-AppendsBelow f = executors-Appends f
