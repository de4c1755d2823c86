-- ===== src/Sla/Matcher/Laws.antt =====
-- What selectMatchingSlaPolicy of sla-policy-matcher.ts chooses.
use support_desk.Base.{
  ℕ, ◌≤◌, ◌≡◌, ◌↔◌, sym, ap, subst, inl, inr, Bool, true, false, Bool-cases, Option-cases, none,
  some, List, [], ◌∷◌, find, if◌then◌else◌, In, All-In, arith,
}
use support_desk.Base.Members.{find-In}
use support_desk.Base.Sort.{sort_by, IsSorted, In-sort_by, sort_by-In, sort_by-IsSorted}
use support_desk.Sla.Matcher.{
  SlaMatchTicketAttributes, SlaPolicyMatchCandidate, matches, select_matching_sla_policy,
}

module _ {A : Type 0} (key : A → ℕ) (p : A → Bool) where
  find-least :
      (xs : List A) (a b : A)
      → IsSorted key xs
      → find p xs ≡ some a
      → In b xs
      → p b ≡ true
      → key a ≤ key b
  find-least [] a b s h m q = cc
  find-least (x ∷ xs) a b (least, s) h (inl e) q =
      let px : p x ≡ true = subst (λ y. p y ≡ true) e q in
      let ax : x ≡ a = ground arith in
      let ka : key x ≡ key a = ap key ax in let kb : key b ≡ key x = ap key e in omega arith
  find-least (x ∷ xs) a b (least, s) h (inr m) q = elim (Bool-cases (p x)) [
    | inl e ↦
        let ax : x ≡ a = ground arith in
        let ka : key x ≡ key a = ap key ax in
        let le = All-In (λ y. key x ≤ key y) b xs least m in omega arith
    | inr e ↦ find-least xs a b s (rw (e, if◌then◌else◌) at h) m q
  ]

  find-none : (xs : List A) (b : A) → find p xs ≡ none → In b xs → p b ≡ false
  find-none [] b h m = absurd m
  find-none (x ∷ xs) b h (inl e) =
      let px : p x ≡ false = ground arith in subst (λ y. p y ≡ false) (sym e) px
  find-none (x ∷ xs) b h (inr m) = elim (Bool-cases (p x)) [
    | inl e ↦ ground arith
    | inr e ↦ find-none xs b (rw (e, if◌then◌else◌) at h) m
  ]

-- The policy that is chosen is one of the candidates, matches the ticket, and comes no later in the
-- order of the priorities than any candidate that matches.
pub select_matching_sla_policy_least :
    (cs : List SlaPolicyMatchCandidate) (ticket : SlaMatchTicketAttributes)
    (c : SlaPolicyMatchCandidate)
    → select_matching_sla_policy cs ticket ≡ some c
    → In c cs
      × (matches ticket c ≡ true)
      × ((d : SlaPolicyMatchCandidate)
          → In d cs
          → matches ticket d ≡ true
          → c.priority ≤ d.priority)
unfolding select_matching_sla_policy
select_matching_sla_policy_least cs ticket c h =
    let key : SlaPolicyMatchCandidate → ℕ = λ x. x.priority in
    let (m, q) = find-In (matches ticket) c (sort_by key cs) h in
    (
      In-sort_by key c cs m,
      q,
      λ d i k.
          find-least key (matches ticket) (sort_by key cs) c d (sort_by-IsSorted key cs) h
            (sort_by-In key d cs i) k,
    )

-- No policy is chosen exactly when no candidate matches the ticket.
select_matching_sla_policy-none_iff :
    (cs : List SlaPolicyMatchCandidate) (ticket : SlaMatchTicketAttributes)
    → (select_matching_sla_policy cs ticket ≡ none)
      ↔ ((d : SlaPolicyMatchCandidate) → In d cs → matches ticket d ≡ false)
unfolding select_matching_sla_policy
select_matching_sla_policy-none_iff cs ticket =
    let key : SlaPolicyMatchCandidate → ℕ = λ x. x.priority in
    let sorted = sort_by key cs in
    (
      λ h d i. find-none key (matches ticket) sorted d h (sort_by-In key d cs i),
      λ h. elim (Option-cases (find (matches ticket) sorted)) [
        | inl e ↦ e
        | inr (c, e) ↦
            let (m, q) = find-In (matches ticket) c sorted e in
            let r = h c (In-sort_by key c cs m) in cc
      ],
    )
