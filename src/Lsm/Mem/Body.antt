-- ===== src/Lsm/Mem/Body.antt =====
-- Writing an item in memory piece by piece (lsm/itemMem.go).
use elinproxy.Prelude.{
  ◌≡◌, sym, ap, ◌∙◌, false, none, some, List, [], ◌∷◌, ◌++◌, length, arith, inl, inr, Option-cases,
}
use mathlib.Core.List.{append_assoc, append-nil, flatten}
use elinproxy.Lsm.File.{Bytes, Os}
use elinproxy.Lsm.Mem.{ItemMem, write}

-- The body, wherever it is.
abbrev pub content : ItemMem → Bytes
content itm = elim itm.w [ none ↦ itm.body | some c ↦ c ]

module _ (os : Os) (sound : (c b : Bytes) → os.write_fault c b ≡ none) where
  -- A write appends its bytes to the body and returns their number, on each of its branches: into
  -- memory, on the move to a temporary file, and into that file.
  pub content-write :
      (b : Bytes) (itm : ItemMem)
      → (content (write os b itm).0 ≡ content itm ++ b) × ((write os b itm).1 ≡ (length b, false))
  unfolding write
  content-write b itm = elim (Option-cases itm.w) [
    | inl e ↦ ground (arith, sound [] itm.body, sound itm.body b)
    | inr (c, e) ↦ ground (arith, sound c b)
  ]

  -- The pieces of a body, written one after the other.
  unfoldable pub write_pieces : List Bytes → ItemMem → ItemMem
  write_pieces [] itm = itm
  write_pieces (b ∷ bs) itm = write_pieces bs (write os b itm).0

  -- However a body is cut into writes, the item holds it whole and in order.
  pub content-write_pieces :
      (bs : List Bytes) (itm : ItemMem) → content (write_pieces bs itm) ≡ content itm ++ flatten bs
  unfolding write_pieces flatten
  content-write_pieces [] itm = sym (append-nil (content itm))
  content-write_pieces (b ∷ bs) itm =
      content-write_pieces bs (write os b itm).0
      ∙ ap (λ c. c ++ flatten bs) (content-write b itm).0
      ∙ append_assoc (content itm) b (flatten bs)
