-- ===== src/Compliance/Index.antt =====
-- The paged index of the tracked addresses refines one list without repetition.
use comebackhere_contracts.Prelude.{
  ℕ, zero, suc, ◌+◌, ◌-◌, ◌*◌, ◌/◌, ◌≤◌, ◌<◌, ◌≡◌, refl, sym, ap, ◌∙◌, Bool, true, false, List, [],
  ◌∷◌, ◌++◌, length, contains, push_back, Distinct, assign, leb, ◌==◌, if◌then◌else◌, arith, inl,
  inr, Bool-cases, contains-push_back, push_back-Distinct, length-append,
}
use mathlib.Core.List.{append_assoc, append-nil}
use comebackhere_contracts.Compliance.Guards.{max_tracked_addresses, collect_pages, page_count}

module _ (pages : ℕ → List ℕ) where
  collect_pages-snoc :
      (left p : ℕ) (all : List ℕ)
      → collect_pages pages (suc left) p all ≡ collect_pages pages left p all ++ pages (p + left)
  unfolding collect_pages
  collect_pages-snoc zero p all = ground arith
  collect_pages-snoc (suc left) p all =
      ground (arith, collect_pages-snoc left (p + 1) (all ++ pages p))

  -- A page behind the last one that is read does not matter.
  collect_pages-assign :
      (k : ℕ) (page : List ℕ) (left p : ℕ) (all : List ℕ)
      → p + left ≤ k
      → collect_pages (assign k page pages) left p all ≡ collect_pages pages left p all
  unfolding collect_pages
  collect_pages-assign k page zero p all h = refl
  collect_pages-assign k page (suc left) p all h =
      ground (arith, collect_pages-assign k page left (p + 1) (all ++ pages p))

-- How many of `count` addresses stand on page `p`.
abbrev page_fill : ℕ → ℕ → ℕ
page_fill count p = if leb (25 * p + 25) count then 25 else count - 25 * p

-- The list that the index stands for.
abbrev listed : (ℕ → List ℕ) → ℕ → List ℕ
listed pages count = collect_pages pages (page_count count) 0 []

pub record IsIndex (pages : ℕ → List ℕ) (tracked : ℕ → Bool) (count : ℕ) : Type 0 where
  fill : (p : ℕ) → length (pages p) ≡ page_fill count p
  pub distinct : Distinct (collect_pages pages (page_count count) 0 [])
  pub member : (a : ℕ) → contains (collect_pages pages (page_count count) 0 []) a ≡ tracked a
  pub size : length (collect_pages pages (page_count count) 0 []) ≡ count
  pub bounded : count ≤ max_tracked_addresses

page_count-full : (count : ℕ) → (count / 25 * 25 == count) ≡ true → page_count count ≡ count / 25
page_count-full count full = ground arith

page_count-partial :
    (count : ℕ) → (count / 25 * 25 == count) ≡ false → page_count count ≡ suc (count / 25)
page_count-partial count partial = ground arith

empty_of_length : (xs : List ℕ) → length xs ≡ 0 → xs ≡ []
empty_of_length [] h = refl
empty_of_length (x ∷ xs) h = absurd (omega arith)

module _ (pages : ℕ → List ℕ) (count : ℕ) (a : ℕ)
    (fill : (p : ℕ) → length (pages p) ≡ page_fill count p) where
  abbrev grown : ℕ → List ℕ
  grown = assign (count / 25) (push_back (pages (count / 25)) a) pages

  -- the full pages, and the page that takes the address
  listed-step :
      listed grown (count + 1)
      ≡ collect_pages pages (count / 25) 0 [] ++ (pages (count / 25) ++ (a ∷ []))
  listed-step =
      ap (λ (n : ℕ). collect_pages grown n 0 []) (omega arith)
      ∙ collect_pages-snoc grown (count / 25) 0 []
      ∙ ground (
        arith,
        collect_pages-assign pages (count / 25) (push_back (pages (count / 25)) a) (count / 25) 0
            [],
      )

  listed-before : listed pages count ≡ collect_pages pages (count / 25) 0 [] ++ pages (count / 25)
  listed-before = elim (Bool-cases (count / 25 * 25 == count)) [
    | inl full ↦
        ap (λ (n : ℕ). collect_pages pages n 0 []) (page_count-full count full)
        ∙ ground (
          arith,
          append-nil (collect_pages pages (count / 25) 0 []),
          empty_of_length (pages (count / 25)),
          fill (count / 25),
        )
    | inr partial ↦
        ap (λ (n : ℕ). collect_pages pages n 0 []) (page_count-partial count partial)
        ∙ collect_pages-snoc pages (count / 25) 0 []
        ∙ ground arith
  ]

  listed-grown : listed grown (count + 1) ≡ push_back (listed pages count) a
  listed-grown =
      listed-step
      ∙ sym (append_assoc (collect_pages pages (count / 25) 0 []) (pages (count / 25)) (a ∷ []))
      ∙ ap (λ (xs : List ℕ). push_back xs a) (sym listed-before)

  grown-fill : (p : ℕ) → length (grown p) ≡ page_fill (count + 1) p
  grown-fill p =
      ground (arith, fill p, fill (count / 25), length-append (pages (count / 25)) (a ∷ []))

-- A new address extends the list that the index stands for, as long as there is room.
pub add_tracked-IsIndex :
    (pages : ℕ → List ℕ) (tracked : ℕ → Bool) (count a : ℕ)
    → IsIndex pages tracked count
    → tracked a ≡ false
    → count < max_tracked_addresses
    → IsIndex
        (assign (count / 25) (push_back (pages (count / 25)) a) pages)
        (assign a true tracked)
        (count + 1)
add_tracked-IsIndex pages tracked count a h fresh room = record {
  fill = grown-fill pages count a h.fill;
  distinct = rw grows (push_back-Distinct (listed pages count) a h.distinct (h.member a ∙ fresh));
  member = λ b.
      ap (λ (xs : List ℕ). contains xs b) grows
      ∙ ground (arith, contains-push_back (listed pages count) a b, h.member b);
  size =
      ap (λ (xs : List ℕ). length xs) grows
      ∙ ground (arith, length-append (listed pages count) (a ∷ []), h.size);
  bounded = omega arith;
}
  where
    grows :
        listed (assign (count / 25) (push_back (pages (count / 25)) a) pages) (count + 1)
        ≡ push_back (listed pages count) a
    grows = listed-grown pages count a h.fill

pub empty-IsIndex : IsIndex (λ _. []) (λ _. false) 0
unfolding collect_pages
empty-IsIndex = record {
  fill = λ p. ground arith;
  distinct = tt;
  member = λ a. refl;
  size = refl;
  bounded = omega arith;
}
