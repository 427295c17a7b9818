-- ===== src/RegAlloc/Active.antt =====
-- The list of active intervals of the linear scan (src/backend/regalloc_linear_scan.c): expiry,
-- insertion and removal keep one register for each entry.
use baa.Base.{
  ℕ, ◌≡◌, refl, ◌≢◌, ◌⊎◌, inl, inr, ◌<◌, Bool, true, List, [], ◌∷◌, ◌==◌, ==_iff, ltb, ltb→lt,
  Bool-cases, ◌∙◌, sym,
}
use baa.RegAlloc.Step.{
  LiveInterval, ActiveEntry, write, still_active, freed_by, insert_active, remove_active,
}

-- The interval j holds the register r.
abbrev pub Holds : ℕ → ℕ → List ActiveEntry → Type 0
Holds j r [] = ⊥
Holds j r (a ∷ rest) = ((a.interval_idx ≡ j) × (a.reg ≡ r)) ⊎ Holds j r rest

-- No register is held twice.
abbrev pub Distinct : List ActiveEntry → Type 0
Distinct [] = Unit
Distinct (a ∷ rest) = ((j : ℕ) → ¬ Holds j a.reg rest) × Distinct rest

pub write_here {ℓ} : {A : Type ℓ} (f : ℕ → A) (k : ℕ) (v : A) → write f k v k ≡ v
write_here f k v = rw ((==_iff k k).1 refl) refl

pub write_other {ℓ} : {A : Type ℓ} (f : ℕ → A) (k n : ℕ) (v : A) → n ≢ k → write f k v n ≡ f n
write_other f k n v other = elim (Bool-cases (n == k)) [
  | inl e ↦ absurd (other ((==_iff n k).0 e))
  | inr e ↦ rw e refl
]

pub Nat-cases : (a b : ℕ) → (a ≡ b) ⊎ (a ≢ b)
Nat-cases a b = elim (Bool-cases (a == b)) [
  | inl e ↦ inl ((==_iff a b).0 e)
  | inr e ↦ inr (λ p. cc (e, (==_iff a b).1 p))
]

pub Holds-unique :
    (j k r : ℕ) (entries : List ActiveEntry)
    → Distinct entries
    → Holds j r entries
    → Holds k r entries
    → j ≡ k
Holds-unique j k r [] d h g = absurd h
Holds-unique j k r (a ∷ rest) d (inl p) (inl q) = sym p.0 ∙ q.0
Holds-unique j k r (a ∷ rest) d (inl p) (inr g) = absurd (d.0 k (rw p.1 g))
Holds-unique j k r (a ∷ rest) d (inr h) (inl q) = absurd (d.0 j (rw q.1 h))
Holds-unique j k r (a ∷ rest) d (inr h) (inr g) = Holds-unique j k r rest d.1 h g

module _ (iv : ℕ → LiveInterval) where
  pub Holds-still_active :
      (start j r : ℕ) (entries : List ActiveEntry)
      → Holds j r (still_active iv start entries)
      → Holds j r entries
  unfolding still_active
  Holds-still_active start j r [] h = h
  Holds-still_active start j r (a ∷ rest) h =
      elim (Bool-cases (ltb (iv a.interval_idx).stop start)) [
        | inl over ↦ inr (Holds-still_active start j r rest (rw over at h))
        | inr on ↦ elim (rw on at h) [
          | inl here ↦ inl here
          | inr later ↦ inr (Holds-still_active start j r rest later)
        ]
      ]

  -- What is no longer active is over.
  pub still_active_complete :
      (start j r : ℕ) (entries : List ActiveEntry)
      → Holds j r entries
      → Holds j r (still_active iv start entries) ⊎ ((iv j).stop < start)
  unfolding still_active
  still_active_complete start j r [] h = absurd h
  still_active_complete start j r (a ∷ rest) h =
      elim (Bool-cases (ltb (iv a.interval_idx).stop start)) [
        | inl over ↦ elim h [
          | inl here ↦ inr (ltb→lt _ _ (rw here.0 at over))
          | inr later ↦ rw over (still_active_complete start j r rest later)
        ]
        | inr on ↦ rw on (elim h [
          | inl here ↦ inl (inl here)
          | inr later ↦ elim (still_active_complete start j r rest later) [
            | inl kept ↦ inl (inr kept)
            | inr over ↦ inr over
          ]
        ])
      ]

  pub still_active-Distinct :
      (start : ℕ) (entries : List ActiveEntry)
      → Distinct entries
      → Distinct (still_active iv start entries)
  unfolding still_active
  still_active-Distinct start [] d = d
  still_active-Distinct start (a ∷ rest) d =
      elim (Bool-cases (ltb (iv a.interval_idx).stop start)) [
        | inl over ↦ rw over (still_active-Distinct start rest d.1)
        | inr on ↦ rw on (
          (λ j h. d.0 j (Holds-still_active start j a.reg rest h)),
          still_active-Distinct start rest d.1,
        )
      ]

  freed_by_other :
      (start r : ℕ) (entries : List ActiveEntry) (free : ℕ → Bool)
      → ((j : ℕ) → ¬ Holds j r entries)
      → freed_by iv start entries free r ≡ free r
  unfolding freed_by
  freed_by_other start r [] free none = refl
  freed_by_other start r (a ∷ rest) free none =
      elim (Bool-cases (ltb (iv a.interval_idx).stop start)) [
        | inl over ↦ rw over (
            freed_by_other start r rest (write free a.reg true) (λ j h. none j (inr h))
            ∙ write_other free a.reg r true (λ e. none a.interval_idx (inl (refl, sym e))))
        | inr on ↦ rw on (freed_by_other start r rest free (λ j h. none j (inr h)))
      ]

  -- A register that stays held is not given back.
  pub freed_by_held :
      (start j r : ℕ) (entries : List ActiveEntry) (free : ℕ → Bool)
      → Distinct entries
      → Holds j r (still_active iv start entries)
      → freed_by iv start entries free r ≡ free r
  unfolding freed_by still_active
  freed_by_held start j r [] free d h = refl
  freed_by_held start j r (a ∷ rest) free d h =
      elim (Bool-cases (ltb (iv a.interval_idx).stop start)) [
        | inl over ↦
            let kept : Holds j r (still_active iv start rest) = rw over at h in
            rw over (
              freed_by_held start j r rest (write free a.reg true) d.1 kept
              ∙ write_other free a.reg r true
                  (λ e. d.0 j (rw (sym e) (Holds-still_active start j r rest kept))))
        | inr on ↦ rw on (elim (rw on at h) [
          | inl here ↦ freed_by_other start r rest free (λ k g. d.0 k (rw here.1 g))
          | inr later ↦ freed_by_held start j r rest free d.1 later
        ])
      ]

  -- What is free afterwards was free or held.
  pub freed_by_source :
      (start r : ℕ) (entries : List ActiveEntry) (free : ℕ → Bool)
      → freed_by iv start entries free r ≡ true
      → (free r ≡ true) ⊎ ((j : ℕ) × Holds j r entries)
  unfolding freed_by
  freed_by_source start r [] free h = inl h
  freed_by_source start r (a ∷ rest) free h = elim (Nat-cases r a.reg) [
    | inl e ↦ inr (a.interval_idx, inl (refl, sym e))
    | inr other ↦ elim (Bool-cases (ltb (iv a.interval_idx).stop start)) [
      | inl over ↦ elim (freed_by_source start r rest (write free a.reg true) (rw over at h)) [
        | inl free_before ↦ inl (sym (write_other free a.reg r true other) ∙ free_before)
        | inr (j, held) ↦ inr (j, inr held)
      ]
      | inr on ↦ elim (freed_by_source start r rest free (rw on at h)) [
        | inl free_before ↦ inl free_before
        | inr (j, held) ↦ inr (j, inr held)
      ]
    ]
  ]

  pub Holds-insert_active :
      (stop j r : ℕ) (e : ActiveEntry) (entries : List ActiveEntry)
      → Holds j r (insert_active iv stop e entries)
      → Holds j r (e ∷ entries)
  unfolding insert_active
  Holds-insert_active stop j r e [] h = h
  Holds-insert_active stop j r e (a ∷ rest) h =
      elim (Bool-cases (ltb stop (iv a.interval_idx).stop)) [
        | inl before ↦ rw before at h
        | inr after ↦ elim (rw after at h) [
          | inl here ↦ inr (inl here)
          | inr later ↦ elim (Holds-insert_active stop j r e rest later) [
            | inl new ↦ inl new
            | inr old ↦ inr (inr old)
          ]
        ]
      ]

  pub insert_active_complete :
      (stop j r : ℕ) (e : ActiveEntry) (entries : List ActiveEntry)
      → Holds j r (e ∷ entries)
      → Holds j r (insert_active iv stop e entries)
  unfolding insert_active
  insert_active_complete stop j r e [] h = h
  insert_active_complete stop j r e (a ∷ rest) h =
      elim (Bool-cases (ltb stop (iv a.interval_idx).stop)) [
        | inl before ↦ rw before h
        | inr after ↦ rw after (elim h [
          | inl new ↦ inr (insert_active_complete stop j r e rest (inl new))
          | inr (inl here) ↦ inl here
          | inr (inr old) ↦ inr (insert_active_complete stop j r e rest (inr old))
        ])
      ]

  pub insert_active-Distinct :
      (stop : ℕ) (e : ActiveEntry) (entries : List ActiveEntry)
      → Distinct (e ∷ entries)
      → Distinct (insert_active iv stop e entries)
  unfolding insert_active
  insert_active-Distinct stop e [] d = d
  insert_active-Distinct stop e (a ∷ rest) d =
      elim (Bool-cases (ltb stop (iv a.interval_idx).stop)) [
        | inl before ↦ rw before d
        | inr after ↦ rw after (
          (λ j h. elim (Holds-insert_active stop j a.reg e rest h) [
            | inl new ↦ d.0 a.interval_idx (inl (refl, sym new.1))
            | inr old ↦ d.1.0 j old
          ]),
          insert_active-Distinct stop e rest ((λ j h. d.0 j (inr h)), d.1.1),
        )
      ]

pub Holds-remove_active :
    (idx j r : ℕ) (entries : List ActiveEntry)
    → Holds j r (remove_active idx entries)
    → Holds j r entries
unfolding remove_active
Holds-remove_active idx j r [] h = h
Holds-remove_active idx j r (a ∷ rest) h = elim (Bool-cases (a.interval_idx == idx)) [
  | inl e ↦ inr (rw e at h)
  | inr e ↦ elim (rw e at h) [
    | inl here ↦ inl here
    | inr later ↦ inr (Holds-remove_active idx j r rest later)
  ]
]

pub remove_active_complete :
    (idx j r : ℕ) (entries : List ActiveEntry)
    → j ≢ idx
    → Holds j r entries
    → Holds j r (remove_active idx entries)
unfolding remove_active
remove_active_complete idx j r [] other h = h
remove_active_complete idx j r (a ∷ rest) other h = elim (Bool-cases (a.interval_idx == idx)) [
  | inl e ↦ rw e (elim h [
    | inl here ↦ absurd (other (sym here.0 ∙ (==_iff a.interval_idx idx).0 e))
    | inr later ↦ later
  ])
  | inr e ↦ rw e (elim h [
    | inl here ↦ inl here
    | inr later ↦ inr (remove_active_complete idx j r rest other later)
  ])
]

pub remove_active-Distinct :
    (idx : ℕ) (entries : List ActiveEntry) → Distinct entries → Distinct (remove_active idx entries)
unfolding remove_active
remove_active-Distinct idx [] d = d
remove_active-Distinct idx (a ∷ rest) d = elim (Bool-cases (a.interval_idx == idx)) [
  | inl e ↦ rw e d.1
  | inr e ↦
      rw e (
        (λ j h. d.0 j (Holds-remove_active idx j a.reg rest h)),
        remove_active-Distinct idx rest d.1,
      )
]

-- The register of an interval that left is held by nobody.
pub remove_active_gone :
    (idx r j : ℕ) (entries : List ActiveEntry)
    → Distinct entries
    → ((r' : ℕ) → Holds idx r' entries → r' ≡ r)
    → Holds idx r entries
    → ¬ Holds j r (remove_active idx entries)
unfolding remove_active
remove_active_gone idx r j [] d only h g = h
remove_active_gone idx r j (a ∷ rest) d only h g = elim (Bool-cases (a.interval_idx == idx)) [
  | inl e ↦ d.0 j (rw (only a.reg (inl ((==_iff a.interval_idx idx).0 e, refl))) (rw e at g))
  | inr e ↦ elim h [
    | inl here ↦ cc (e, (==_iff a.interval_idx idx).1 here.0)
    | inr later ↦ elim (rw e at g) [
      | inl now ↦ d.0 idx (rw now.1 later)
      | inr after ↦ remove_active_gone idx r j rest d.1 (λ r' k. only r' (inr k)) later after
    ]
  ]
]
