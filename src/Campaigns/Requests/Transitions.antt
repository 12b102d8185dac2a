-- ===== src/Campaigns/Requests/Transitions.antt =====
-- Which statuses a request can change, and whose campaigns it touches.
use notifymain_wa.Prelude.{
  ℕ, ◌≡◌, refl, sym, ap, ◌∙◌, inl, inr, Bool, true, false, not, ◌&&◌, some, List, [], ◌∷◌, ◌++◌,
  arith, any, ◌==◌, ==_iff, ==_refl, Bool-cases, keep, keep-append, update_where, find_first,
  find_first-any,
}
use mathlib.Core.Path.{subst}
use mathlib.Core.List.{append-nil}
use notifymain_wa.Campaigns.Data.{Campaign, Store}
use notifymain_wa.Campaigns.Actions.{World}
use notifymain_wa.Campaigns.Lookup.{is_campaign}
use notifymain_wa.Campaigns.Requests.{
  Request, serve, Change, idle, created, edited, extended, reset, Keeps, grow, Allowed, stays,
}
use notifymain_wa.Campaigns.Requests.Effects.{serve-Change}
use notifymain_wa.Campaigns.Requests.Consistency.{IsDistinct, IsConsistent}

not_both : (b : Bool) → b ≡ false → b ≡ true → ⊥
not_both b h k = ground arith

-- Row by row: a campaign keeps its place, its id and its owner, its status changes only as a
-- request may change it, and further campaigns may follow.
abbrev pub Evolves : List Campaign → List Campaign → Type 0
Evolves [] ds = Unit
Evolves (c ∷ cs) [] = ⊥
Evolves (c ∷ cs) (d ∷ ds) =
    (d.id ≡ c.id) × (d.tenant_id ≡ c.tenant_id) × Allowed c.status d.status × Evolves cs ds

Evolves-refl : (cs : List Campaign) → Evolves cs cs
Evolves-refl [] = tt
Evolves-refl (c ∷ cs) = (refl, refl, stays, Evolves-refl cs)

Evolves-snoc : (cs : List Campaign) (d : Campaign) → Evolves cs (cs ++ d ∷ [])
Evolves-snoc [] d = tt
Evolves-snoc (c ∷ cs) d = (refl, refl, stays, Evolves-snoc cs d)

Evolves-grow :
    (n : ℕ) (p : Campaign → Bool) (cs : List Campaign) → Evolves cs (update_where p (grow n) cs)
Evolves-grow n p [] = tt
Evolves-grow n p (c ∷ cs) = elim (Bool-cases (p c)) [
  | inl e ↦ rw e (refl, refl, stays, Evolves-grow n p cs)
  | inr e ↦ rw e (refl, refl, stays, Evolves-grow n p cs)
]

-- An id that stands in no row: the update does nothing.
update_where-absent :
    (id : ℕ) (f : Campaign → Campaign) (cs : List Campaign)
    → any (is_campaign id) cs ≡ false
    → update_where (is_campaign id) f cs ≡ cs
update_where-absent id f [] h = refl
update_where-absent id f (c ∷ cs) h = ground (arith, update_where-absent id f cs)

abbrev pub matches : ℕ → ℕ → Campaign → Bool
matches t id c = (c.id == id) && (c.tenant_id == t)

-- With unique ids a row of the id that was looked for is the row found.
pub found-head :
    (t id : ℕ) (b c : Campaign) (cs : List Campaign)
    → any (is_campaign b.id) cs ≡ false
    → (b.id == id) ≡ true
    → find_first (matches t id) (b ∷ cs) ≡ some c
    → (b ≡ c) × (any (is_campaign id) cs ≡ false) × (c.tenant_id ≡ t)
found-head t id b c cs u hit h =
    let absent : any (is_campaign id) cs ≡ false = rw (← (==_iff b.id id).0 hit) u in
    elim (Bool-cases (b.tenant_id == t)) [
      | inl own ↦
          let same : b ≡ c = ground arith in (same, absent, rw (← same) ((==_iff _ _).0 own))
      | inr other ↦
          let elsewhere : find_first (matches t id) cs ≡ some c = ground arith in
          absurd (
            not_both (any (is_campaign id) cs) absent
              (find_first-any (matches t id) (is_campaign id) cs elsewhere (λ x k. ground arith)))
    ]

-- The row that is edited is the one that was found.
Evolves-edit :
    (t id : ℕ) (c : Campaign) (f : Campaign → Campaign) (cs : List Campaign)
    → IsDistinct cs
    → find_first (matches t id) cs ≡ some c
    → Keeps f
    → Allowed c.status (f c).status
    → Evolves cs (update_where (is_campaign id) f cs)
Evolves-edit t id c f [] u h keeps al = tt
Evolves-edit t id c f (b ∷ cs) u h keeps al = elim (Bool-cases (b.id == id)) [
  | inr miss ↦ rw miss (refl, refl, stays, Evolves-edit t id c f cs u.1 (rw miss at h) keeps al)
  | inl hit ↦
      let (same, absent, own) = found-head t id b c cs u.0 hit h in
      rw (hit, update_where-absent id f cs absent)
        (
          (keeps b).0,
          (keeps b).1,
          subst (λ a. Allowed a.status (f a).status) (sym same) al,
          Evolves-refl cs,
        )
]

Change-Evolves :
    (w : World) (t : ℕ) (s s' : Store)
    → IsConsistent w s
    → Change w t s s'
    → Evolves s.campaigns s'.campaigns
Change-Evolves w t s s' v (idle ec er d) = rw ec (Evolves-refl s.campaigns)
Change-Evolves w t s s' v (created k draw c ns lo hi named own st total ec er from to) =
    rw ec (Evolves-snoc s.campaigns c)
Change-Evolves w t s s' v (edited id c f found keeps al ec er d) =
    rw ec (Evolves-edit t id c f s.campaigns v.distinct found keeps al)
Change-Evolves w t s s' v (extended id draw c ns found ec er from to) =
    rw ec (Evolves-grow _ (is_campaign id) s.campaigns)
Change-Evolves w t s s' v (reset p ec er d) = rw ec (Evolves-refl s.campaigns)

-- In a consistent store a request removes no campaign, and changes the status of one only from
-- scheduled to draft, from draft to scheduled, from either to running, or from running or scheduled
-- to cancelled. So a paused, completed or cancelled campaign keeps its status.
pub serve-Evolves :
    (w : World) (t u : ℕ) (q : Request) (s : Store)
    → IsConsistent w s
    → Evolves s.campaigns (serve w t u q s).campaigns
serve-Evolves w t u q s v = Change-Evolves w t s (serve w t u q s) v (serve-Change w t u q s)

-- The campaigns of the other tenants.
abbrev pub is_foreign : ℕ → Campaign → Bool
is_foreign t c = not (c.tenant_id == t)

keep-edit :
    (t id : ℕ) (c : Campaign) (f : Campaign → Campaign) (cs : List Campaign)
    → IsDistinct cs
    → find_first (matches t id) cs ≡ some c
    → ((d : Campaign) → (f d).tenant_id ≡ d.tenant_id)
    → keep (is_foreign t) (update_where (is_campaign id) f cs) ≡ keep (is_foreign t) cs
keep-edit t id c f [] u h keeps = refl
keep-edit t id c f (b ∷ cs) u h keeps = elim (Bool-cases (b.id == id)) [
  | inr miss ↦
      let rest : keep (is_foreign t) (update_where (is_campaign id) f cs) ≡ keep (is_foreign t) cs =
        keep-edit t id c f cs u.1 (rw miss at h) keeps in
      rw (miss, rest)
  | inl hit ↦
      let (same, absent, own) = found-head t id b c cs u.0 hit h in
      let mine : b.tenant_id ≡ t = ap (λ (a : Campaign). a.tenant_id) same ∙ own in
      rw (hit, update_where-absent id f cs absent, keeps b, mine, ==_refl t)
]

keep-grow :
    (t id n : ℕ) (c : Campaign) (cs : List Campaign)
    → IsDistinct cs
    → find_first (matches t id) cs ≡ some c
    → keep (is_foreign t) (update_where (is_campaign id) (grow n) cs) ≡ keep (is_foreign t) cs
keep-grow t id n c cs u h = keep-edit t id c (grow n) cs u h (λ d. refl)

Change-keep :
    (w : World) (t : ℕ) (s s' : Store)
    → IsConsistent w s
    → Change w t s s'
    → keep (is_foreign t) s'.campaigns ≡ keep (is_foreign t) s.campaigns
Change-keep w t s s' v (idle ec er d) = rw ec
Change-keep w t s s' v (created k draw c ns lo hi named own st total ec er from to) =
    rw (ec, keep-append (is_foreign t) s.campaigns (c ∷ []), own, ==_refl t)
      (append-nil (keep (is_foreign t) s.campaigns))
Change-keep w t s s' v (edited id c f found keeps al ec er d) =
    rw ec (keep-edit t id c f s.campaigns v.distinct found (λ b. (keeps b).1))
Change-keep w t s s' v (extended id draw c ns found ec er from to) =
    rw ec (keep-grow t id _ c s.campaigns v.distinct found)
Change-keep w t s s' v (reset p ec er d) = rw ec

-- In a consistent store a request of one tenant leaves the campaigns of all others as they are.
pub serve-keep_foreign :
    (w : World) (t u : ℕ) (q : Request) (s : Store)
    → IsConsistent w s
    → keep (is_foreign t) (serve w t u q s).campaigns ≡ keep (is_foreign t) s.campaigns
serve-keep_foreign w t u q s v = Change-keep w t s (serve w t u q s) v (serve-Change w t u q s)
