-- ===== src/Admin/Keys/Walk.antt =====
-- admin/keys.go, list, over ListIntegrationKeys: a client that follows next_cursor to the end.
use tempogate.Common.{
  ℕ, zero, suc, String, ◌≡◌, refl, sym, ap, ◌∙◌, Bool, true, false, ◌&&◌, Option, none, some, List,
  [], ◌∷◌, ◌++◌, ◌==◌, eq_iff, arith, if◌then◌else◌, All, any, Distinct, Bool-cases, inl, inr,
}
use mathlib.Core.Option
use tempogate.Common.Ordered.{
  IsOrder, asymmetric, select, select_miss, sort, sort-select, select-select, select_ext,
}
use tempogate.State.Driver.{Driver}
use tempogate.State.IntegrationKeys.{IntegrationKey, KeyTables, id_of, wanted, behind}
use tempogate.Admin.Keys.{Keys, KeyView, ListInput, ListOutput, list}

-- What the client does with an answer, given how it goes on from a cursor.
abbrev pub follow : (String → Option (List KeyView)) → ListOutput → Option (List KeyView)
follow go (ListOutput.listed items next) =
    if next == "" then some items else Option.map (λ rest. items ++ rest) (go next)
follow go ListOutput.bad_request = none
follow go ListOutput.failed = none
follow go ListOutput.panicked = none

-- The listing's answers, put together; the tables are those that each of its requests finds.
module _ (h : Keys) (before : String → String → Bool) (db : Driver) where
  unfoldable pub walk : ℕ → (ℕ → KeyTables) → ListInput → Option (List KeyView)
  walk zero tables input = none
  walk (suc fuel) tables input =
      follow (λ next. walk fuel (λ n. tables (suc n)) (record input { cursor = next }))
        (list h before db input (tables 0))

-- What may happen to the table between two requests: nothing, or a key is saved whose id, a
-- UUIDv7, is above those of the table.
pub data Grows (before : String → String → Bool)
    : List IntegrationKey → List IntegrationKey → Type 0 where
  same : {keys : List IntegrationKey} → Grows before keys keys
  minted :
      {keys : List IntegrationKey} (k : IntegrationKey)
      → All (λ r. before r.id k.id ≡ true) keys
      → Grows before keys (k ∷ keys)

-- The rows that the request is about, newest first.
abbrev pub listing : (String → String → Bool) → ListInput → KeyTables → List IntegrationKey
listing before input t = select (wanted input.owner input.namespace) (sort id_of before t.keys)

abbrev pub below : (String → String → Bool) → String → IntegrationKey → Bool
below before c k = before k.id c

module _ {before : String → String → Bool} (o : IsOrder before) where
  -- What the store returns in front of LIMIT.
  unfoldable pub rows_of : ListInput → KeyTables → List IntegrationKey
  rows_of input t =
      sort id_of before
        (select (λ k. wanted input.owner input.namespace k && behind before input.cursor k) t.keys)

  pub rows_of-first :
      (input : ListInput) (t : KeyTables)
      → Distinct id_of t.keys
      → input.cursor ≡ ""
      → rows_of input t ≡ listing before input t
  unfolding rows_of
  rows_of-first input t d e =
      ap (sort id_of before) (select_ext _ _ t.keys (λ k. rw e (ground arith)))
      ∙ sort-select id_of o (wanted input.owner input.namespace) t.keys d

  pub rows_of-next :
      (input : ListInput) (t : KeyTables)
      → Distinct id_of t.keys
      → (input.cursor == "") ≡ false
      → rows_of input t ≡ select (below before input.cursor) (listing before input t)
  unfolding rows_of
  rows_of-next input t d e =
      ap (sort id_of before) (select_ext _ _ t.keys (λ k. rw e refl))
      ∙ sort-select id_of o _ t.keys d
      ∙ sym (select-select _ _ (sort id_of before t.keys))

  -- An id of the table comes before that of a key saved since.
  before_minted :
      (c : String) (k : IntegrationKey) (keys : List IntegrationKey)
      → any (λ r. id_of r == c) keys ≡ true
      → All (λ r. before r.id k.id ≡ true) keys
      → before c k.id ≡ true
  unfolding any
  before_minted c k [] h a = cc
  before_minted c k (r ∷ keys) h a = elim (Bool-cases (id_of r == c)) [
    | inl hit ↦ rw ((eq_iff (id_of r) c).0 hit) at a.0
    | inr miss ↦ before_minted c k keys (rw miss at h) a.1
  ]

  -- A table that grows keeps its ids, and the rows behind each of them.
  rows_of-Grows :
      (c owner namespace : String) {keys keys' : List IntegrationKey}
      → (c == "") ≡ false
      → Grows before keys keys'
      → any (λ r. id_of r == c) keys ≡ true
      → (any (λ r. id_of r == c) keys' ≡ true)
        × (select (λ k. wanted owner namespace k && behind before c k) keys'
            ≡ select (λ k. wanted owner namespace k && behind before c k) keys)
  unfolding any
  rows_of-Grows c owner namespace e same h = (h, refl)
  rows_of-Grows c owner namespace e (minted {keys} k above) h =
      let out : before k.id c ≡ false = asymmetric o c k.id (before_minted c k keys h above) in
      (
        ground (arith, h),
        select_miss (λ r. wanted owner namespace r && behind before c r) k keys
            (ground (arith, e, out)),
      )

  pub rows_of-grown :
      (input : ListInput) (tables : ℕ → KeyTables)
      → ((n : ℕ) → Grows before (tables n).keys (tables (suc n)).keys)
      → (input.cursor == "") ≡ false
      → any (λ r. id_of r == input.cursor) (tables 0).keys ≡ true
      → (n : ℕ)
      → (any (λ r. id_of r == input.cursor) (tables n).keys ≡ true)
        × (rows_of input (tables n) ≡ rows_of input (tables 0))
  unfolding rows_of
  rows_of-grown input tables grows e h zero = (h, refl)
  rows_of-grown input tables grows e h (suc n) =
      let (there, rows) = rows_of-grown input tables grows e h n in
      let (there', same_rows) =
        rows_of-Grows input.cursor input.owner input.namespace e (grows n) there in
      (there', ap (sort id_of before) same_rows ∙ rows)
