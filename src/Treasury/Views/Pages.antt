-- ===== src/Treasury/Views/Pages.antt =====
-- A page is a segment of the whole list.
use comebackhere_contracts.Prelude.{
  ℕ, zero, suc, ◌+◌, ◌≤◌, ◌≡◌, refl, Option, none, some, List, [], ◌∷◌, ◌++◌, Map, length, take,
  drop, push_back, arith, ◌∙◌, sym, inl, inr, Option-cases,
}
use mathlib.Core.List.{append_assoc}
use comebackhere_contracts.Multisig.Types.{Settlement}
use comebackhere_contracts.Multisig.Storage.{State}
use comebackhere_contracts.Treasury.Views.{
  push_found, collect_all, collect_page, get_pending_settlements, get_pending_settlements_page,
  get_settlements_by_merchant,
}

abbrev cons_found : Option Settlement → List Settlement → List Settlement
cons_found none rest = rest
cons_found (some a) rest = a ∷ rest

-- What is stored under the ids, in their order.
abbrev pub stored_under : Map Settlement → List ℕ → List Settlement
stored_under stored [] = []
stored_under stored (id ∷ ids) = cons_found (stored id) (stored_under stored ids)

append_end : (xs : List Settlement) → xs ++ [] ≡ xs
append_end [] = refl
append_end (x ∷ xs) = ground (arith, append_end xs)

push_found-append :
    (page : List Settlement) (o : Option Settlement) (rest : List Settlement)
    → push_found page o ++ rest ≡ page ++ cons_found o rest
push_found-append page none rest = refl
push_found-append page (some a) rest = append_assoc page (a ∷ []) rest

collect_all-append :
    (stored : Map Settlement) (ids : List ℕ) (pending : List Settlement)
    → collect_all stored ids pending ≡ pending ++ stored_under stored ids
unfolding collect_all
collect_all-append stored [] pending = sym (append_end pending)
collect_all-append stored (id ∷ ids) pending =
    collect_all-append stored ids (push_found pending (stored id))
    ∙ push_found-append pending (stored id) (stored_under stored ids)

length-push_back :
    (page : List Settlement) (a : Settlement) → length (push_back page a) ≡ length page + 1
length-push_back [] a = omega arith
length-push_back (x ∷ xs) a = omega (arith, length-push_back xs a)

page_of_nothing : (limit : ℕ) → [] ≡ take limit (stored_under (λ _. none) [])
page_of_nothing zero = refl
page_of_nothing (suc limit) = refl

module _ (stored : Map Settlement) (start limit : ℕ) where
  -- once `start` ids are skipped, with `room` places left
  collect_page-take :
      (ids : List ℕ) (skipped : ℕ) (page : List Settlement) (room : ℕ)
      → start ≤ skipped
      → limit ≡ length page + room
      → collect_page stored start limit ids skipped page
        ≡ page ++ take room (stored_under stored ids)
  unfolding collect_page
  collect_page-take [] skipped page zero past left = sym (append_end page)
  collect_page-take [] skipped page (suc room) past left = sym (append_end page)
  collect_page-take (id ∷ ids) skipped page zero past left = ground (arith, append_end page)
  collect_page-take (id ∷ ids) skipped page (suc room) past left = elim (Option-cases (stored id)) [
    | inl missing ↦ ground (arith, collect_page-take ids skipped page (suc room))
    | inr (a, found) ↦ ground (
      arith,
      collect_page-take ids skipped (push_back page a) room,
      length-push_back page a,
      append_assoc page (a ∷ []) (take room (stored_under stored ids)),
    )
  ]

  collect_page-drop :
      (ids : List ℕ) (skipped left : ℕ)
      → start ≡ skipped + left
      → collect_page stored start limit ids skipped []
        ≡ take limit (stored_under stored (drop left ids))
  unfolding collect_page
  collect_page-drop ids skipped zero h =
      collect_page-take ids skipped [] limit (omega arith) (omega arith)
  collect_page-drop [] skipped (suc left) h = page_of_nothing limit
  collect_page-drop (id ∷ ids) skipped (suc left) h =
      ground (arith, collect_page-drop ids (skipped + 1) left (omega arith))

module _ {L : Type 0} (s : State L) where
  -- The pending settlements are what is stored under the ids of the index, in its order; a page of
  -- them, and a page of a merchant's settlements, skips `start` ids of the index and has the first
  -- `limit` of the settlements that are stored under the others.
  pub pages :
      (merchant start limit : ℕ)
      → (get_pending_settlements s ≡ stored_under s.settlement s.pending_settlement_index)
        × (get_pending_settlements_page s start limit
            ≡ take limit (stored_under s.settlement (drop start s.pending_settlement_index)))
        × (get_settlements_by_merchant s merchant start limit
            ≡ take limit (stored_under s.settlement (drop start (s.merchant_settlements merchant))))
  unfolding get_pending_settlements get_pending_settlements_page get_settlements_by_merchant
  pages merchant start limit = (
    collect_all-append s.settlement s.pending_settlement_index [],
    collect_page-drop s.settlement start limit s.pending_settlement_index 0 start (omega arith),
    collect_page-drop s.settlement start limit (s.merchant_settlements merchant) 0 start
        (omega arith),
  )
