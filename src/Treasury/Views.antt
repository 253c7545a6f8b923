-- ===== src/Treasury/Views.antt =====
-- The paginated readers of contracts/treasury/src/settlements.rs.
pub mod Pages
use comebackhere_contracts.Prelude.{
  ℕ, suc, ◌+◌, Option, none, some, List, [], ◌∷◌, Map, length, push_back, ltb, leb, if◌then◌else◌,
}
use comebackhere_contracts.Multisig.Types.{Settlement}
use comebackhere_contracts.Multisig.Storage.{State}

abbrev pub push_found : List Settlement → Option Settlement → List Settlement
push_found page none = page
push_found page (some a) = push_back page a

-- The loop of `get_pending_settlements`.
unfoldable pub collect_all : Map Settlement → List ℕ → List Settlement → List Settlement
collect_all stored [] pending = pending
collect_all stored (id ∷ ids) pending = collect_all stored ids (push_found pending (stored id))

-- The loop of both pages, with `skipped` and `page` as its variables.
unfoldable pub collect_page :
    Map Settlement → ℕ → ℕ → List ℕ → ℕ → List Settlement → List Settlement
collect_page stored start limit [] skipped page = page
collect_page stored start limit (id ∷ ids) skipped page =
    let skip = collect_page stored start limit ids (skipped + 1) page in
    let next = collect_page stored start limit ids skipped (push_found page (stored id)) in
    if ltb skipped start then skip else if leb limit (length page) then page else next

module _ {L : Type 0} where
  unfoldable pub get_pending_settlements : State L → List Settlement
  get_pending_settlements s = collect_all s.settlement s.pending_settlement_index []

  unfoldable pub get_pending_settlements_page : State L → ℕ → ℕ → List Settlement
  get_pending_settlements_page s start limit =
      collect_page s.settlement start limit s.pending_settlement_index 0 []

  unfoldable pub get_settlements_by_merchant : State L → ℕ → ℕ → ℕ → List Settlement
  get_settlements_by_merchant s merchant start limit =
      collect_page s.settlement start limit (s.merchant_settlements merchant) 0 []
