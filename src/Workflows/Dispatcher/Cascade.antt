-- ===== src/Workflows/Dispatcher/Cascade.antt =====
-- How far the events that workflows append set off others (workflow-dispatcher.service.ts,
-- dispatchOutboxEvent, with the budget of workflow-recursion-budget.ts).
use support_desk.Base.{
  ℕ, zero, suc, ◌+◌, ◌-◌, ◌*◌, ◌≤◌, ◌≡◌, refl, ap, inl, inr, text_eq_refl, Bool, true, false, ◌||◌,
  Bool-cases, none, some, List, [], ◌∷◌, ◌++◌, if◌then◌else◌, leb, leb→le, any, filter,
  update_where, take, length, All, length-take-le, In, In-filter, In-take, arith,
}
use support_desk.Base.Members.{In-any, append-In}
use support_desk.Base.Sort.{sort_by, In-sort_by}
use support_desk.Outbox.{
  OutboxEvent, state_eq, pending, claimed, processed, mark_processed, is_event,
}
use support_desk.Workflows.{evaluate_recursion_budget}
use support_desk.Workflows.Tables.{
  Workflow, Store, Env, can_match, workflow_audit, active_workflows,
}
use support_desk.Workflows.Dispatcher.Appends.{AppendsBelow, IsSmall, run_workflows-Appends}
use support_desk.Workflows.Dispatcher.{run_workflows, dispatch_outbox_event, mark, audited}

-- A row that a worker may still be given: PENDING or CLAIMED.
abbrev pub is_live : OutboxEvent → Bool
is_live e = state_eq e.state pending || state_eq e.state claimed

-- The dispatches that an event sets off with `left` depths below the cap, itself included, where a
-- dispatch appends at most `b` events.
unfoldable pub weight : (b left : ℕ) → ℕ
weight b zero = 1
weight b (suc left) = 1 + b * weight b left

abbrev pub cost : (b : ℕ) → OutboxEvent → ℕ
cost b e = if is_live e then weight b (3 - e.automation_depth) else 0

unfoldable pub total : (b : ℕ) → List OutboxEvent → ℕ
total b [] = 0
total b (e ∷ es) = cost b e + total b es

total-append : (b : ℕ) (xs ys : List OutboxEvent) → total b (xs ++ ys) ≡ total b xs + total b ys
unfolding total
total-append b [] ys = omega arith
total-append b (x ∷ xs) ys = omega (arith, total-append b xs ys)

-- New rows of one depth.
total_deep :
    (b n d : ℕ) (xs : List OutboxEvent)
    → length xs ≤ n
    → All (λ e. e.automation_depth ≡ d) xs
    → total b xs ≤ n * weight b (3 - d)
unfolding total
total_deep b n d [] le h = omega arith
total_deep b zero d (x ∷ xs) le h = absurd (omega arith)
total_deep b (suc n) d (x ∷ xs) le h =
    let rest = total_deep b n d xs (omega arith) h.1 in
    let same : weight b (3 - x.automation_depth) ≡ weight b (3 - d) =
      ap (λ (k : ℕ). weight b (3 - k)) h.0 in
    let first : cost b x ≤ weight b (3 - d) = (ground arith) in grind arith

-- Rows that stop being live weigh nothing.
total-stopped :
    (b : ℕ) (p : OutboxEvent → Bool) (f : OutboxEvent → OutboxEvent) (xs : List OutboxEvent)
    → ((x : OutboxEvent) → is_live (f x) ≡ false)
    → total b (update_where p f xs) ≤ total b xs
unfolding total
total-stopped b p f [] stop = omega arith
total-stopped b p f (x ∷ xs) stop =
    let rest = total-stopped b p f xs stop in
    let stopped : cost b (f x) ≡ 0 = rw (stop x) in ground arith

total-stopped_one :
    (b : ℕ) (p : OutboxEvent → Bool) (f : OutboxEvent → OutboxEvent) (e : OutboxEvent)
    (xs : List OutboxEvent)
    → ((x : OutboxEvent) → is_live (f x) ≡ false)
    → In e xs
    → p e ≡ true
    → total b (update_where p f xs) + cost b e ≤ total b xs
unfolding total
total-stopped_one b p f e [] stop i h = absurd i
total-stopped_one b p f e (x ∷ xs) stop (inl same) h =
    let rest = total-stopped b p f xs stop in
    let px : p x ≡ true = rw (← same, h) in
    let stopped : cost b (f x) ≡ 0 = rw (stop x) in
    let equal : cost b e ≡ cost b x = ap (cost b) same in rw px (ground arith)
total-stopped_one b p f e (x ∷ xs) stop (inr i) h =
    let rest = total-stopped_one b p f e xs stop i h in
    let stopped : cost b (f x) ≡ 0 = rw (stop x) in ground arith

module _ {W P X C : Type 0} (b : ℕ) (env : Env W P X C) (e : OutboxEvent) where
  mark-total :
      (s : Store W P X C)
      → In e s.domain.outbox
      → total b (mark env e s).0.domain.outbox + cost b e ≤ total b s.domain.outbox
  unfolding mark_processed
  mark-total s i =
      let this : is_event e.id e.tenant_id e ≡ true =
        rw (text_eq_refl e.id, text_eq_refl e.tenant_id) in
      let found : any (is_event e.id e.tenant_id) s.domain.outbox ≡ true =
        In-any (is_event e.id e.tenant_id) e s.domain.outbox i this in
      rw found (
        total-stopped_one b (is_event e.id e.tenant_id)
          (λ x. record x {
            state = processed;
            processed_at = some env.now;
            lease_owner = none;
            lease_expires_at = none;
          })
          e s.domain.outbox (λ x. refl) i this)

length-filter-le : {A : Type 0} (p : A → Bool) (xs : List A) → length (filter p xs) ≤ length xs
length-filter-le p [] = omega arith
length-filter-le p (x ∷ xs) = ground (arith, length-filter-le p xs)

times_le : (x y k : ℕ) {n : ℕ} → x ≤ y → n ≤ x * k → n ≤ y * k
times_le x y k le h = grind arith

module _ {W P X C : Type 0} (e : OutboxEvent) (workflows : List (Workflow W P X C)) where
  active_workflows-In :
      (w : Workflow W P X C) → In w (active_workflows e workflows) → In w workflows
  unfolding active_workflows
  active_workflows-In w i =
      let matching = filter (can_match e) workflows in
      let sorted = sort_by (λ (x : Workflow W P X C). x.priority) matching in
      (In-filter (can_match e) w workflows (
        In-sort_by (λ x. x.priority) w matching
          (In-take w 50 sorted (In-filter _ w (take 50 sorted) i).0))).0

  length-active_workflows : length (active_workflows e workflows) ≤ 50
  unfolding active_workflows
  length-active_workflows =
      let sorted =
        sort_by (λ (x : Workflow W P X C). x.priority) (filter (can_match e) workflows) in
      omega (arith, length-filter-le _ (take 50 sorted), length-take-le 50 sorted)

module _ {W P X C : Type 0} (m a : ℕ) (env : Env W P X C) (e : OutboxEvent) (s : Store W P X C)
    (below : AppendsBelow m env.executors)
    (small : (w : Workflow W P X C) → In w s.workflows → IsSmall a w)
    (queued : In e s.domain.outbox) (live : is_live e ≡ true) where
  -- The rows that one dispatch appends, at most.
  abbrev bound : ℕ
  bound = 50 * (a * m)

  cost_at : (left : ℕ) → 3 - e.automation_depth ≡ left → cost bound e ≡ weight bound left
  cost_at left same = rw (live, same)

  capped-total :
      leb 3 e.automation_depth ≡ true
      → total bound (dispatch_outbox_event env e s).0.domain.outbox + 1
        ≤ total bound s.domain.outbox
  unfolding dispatch_outbox_event evaluate_recursion_budget weight
  capped-total capped = rw capped (
      let warned =
        audited
          (workflow_audit "workflow.automation_depth_capped" true e.tenant_id e.id "outbox_event")
          s in
      let done = mark-total bound env e warned queued in
      let depth = leb→le 3 e.automation_depth capped in
      let worth : cost bound e ≡ 1 = cost_at 0 (omega arith) in omega (arith, done, worth))

  open_total :
      leb 3 e.automation_depth ≡ false
      → total bound (dispatch_outbox_event env e s).0.domain.outbox + 1
        ≤ total bound s.domain.outbox
  unfolding dispatch_outbox_event evaluate_recursion_budget weight
  open_total free = rw free (
      let ws = active_workflows e s.workflows in
      let t = run_workflows env e ws s in
      let appended =
        run_workflows-Appends m a env e below ws s
          (λ w i. small w (active_workflows-In e s.workflows w i)) in
      let kept : In e t.domain.outbox =
        rw appended.is_append (append-In e s.domain.outbox appended.new_rows (inl queued)) in
      let done = mark-total bound env e t kept in
      let left : ℕ = 3 - (e.automation_depth + 1) in
      let few : length appended.new_rows ≤ bound =
        times_le (length ws) 50 (a * m) (length-active_workflows e s.workflows)
          appended.is_bounded in
      let more =
        total_deep bound bound (e.automation_depth + 1) appended.new_rows few appended.is_deeper in
      let sum : total bound t.domain.outbox
          ≡ total bound s.domain.outbox + total bound appended.new_rows =
        rw appended.is_append (total-append bound s.domain.outbox appended.new_rows) in
      let worth : cost bound e ≡ 1 + bound * weight bound left =
        cost_at (suc left) (ground arith) in
      omega (arith, done, more, sum, worth))

  dispatch-total :
      total bound (dispatch_outbox_event env e s).0.domain.outbox + 1 ≤ total bound s.domain.outbox
  dispatch-total = elim (Bool-cases (leb 3 e.automation_depth)) [
    | inl capped ↦ capped-total capped
    | inr free ↦ open_total free
  ]

-- Dispatches of live events one after the other, by any workers and in any order, between which the
-- workflows may be edited. Every executor appends at most `m` rows, and every workflow has at most
-- `a` actions.
pub data Dispatches {W P X C : Type 0} (m a : ℕ) : ℕ → Store W P X C → Store W P X C → Type 0 where
  over : (s : Store W P X C) → Dispatches m a 0 s s
  dispatch :
      {n : ℕ} {s t u : Store W P X C} (env : Env W P X C) (e : OutboxEvent)
      → AppendsBelow m env.executors
      → ((w : Workflow W P X C) → In w s.workflows → IsSmall a w)
      → In e s.domain.outbox
      → is_live e ≡ true
      → u ≡ (dispatch_outbox_event env e s).0
      → Dispatches m a n u t
      → Dispatches m a (suc n) s t
  edit :
      {n : ℕ} {s t : Store W P X C} (workflows : List (Workflow W P X C))
      → Dispatches m a n (record s { workflows = workflows }) t
      → Dispatches m a n s t

-- Dispatches come to an end: however the live events are picked and whatever their workflows append,
-- a sequence of dispatches is no longer than what the live events at its start weigh, less what
-- is live after it. Where each dispatch appends at most b = 50 * a * m events, an event of
-- depth 0 weighs 1 + b + b^2 + b^3, and one at the cap 1.
pub Dispatches-end :
    {W P X C : Type 0} (m a n : ℕ) {s t : Store W P X C}
    → Dispatches m a n s t
    → n + total (50 * (a * m)) t.domain.outbox ≤ total (50 * (a * m)) s.domain.outbox
Dispatches-end m a n (over s) = omega arith
Dispatches-end m a (suc n) {s} {t} (dispatch {u} env e below small queued live result rest) =
    let step = dispatch-total m a env e s below small queued live in
    let after = Dispatches-end m a n rest in
    let same = ap (λ (x : Store _ _ _ _). total (50 * (a * m)) x.domain.outbox) result in
    omega (arith, step, after, same)
Dispatches-end m a n (edit workflows rest) = Dispatches-end m a n rest
