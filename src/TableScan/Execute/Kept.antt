-- ===== src/TableScan/Execute/Kept.antt =====
-- What `_on_execute` keeps of the positions that it finds in the chunks.
use dyod_so_se.Outcome.{Build}
use dyod_so_se.Prelude.{
  ℕ, suc, ◌^◌, ◌<◌, ◌≤◌, ◌≡◌, refl, Bool, List, [], ◌∷◌, ◌++◌, Option, none, some, map, length, All,
  arith,
}
use dyod_so_se.Reference.{Store}
use dyod_so_se.Segment.{ReferenceSegment}
use dyod_so_se.Table.Contents.{concat}
use dyod_so_se.TableScan.Execute.{Scan, keep_found}
use dyod_so_se.TableScan.Selection.{select}
use dyod_so_se.Types.{Platform, DataType, PosList}

-- all positions, in order
abbrev pub positions : List ReferenceSegment → PosList
positions found = concat (map (λ r. r.pos_list) found)

-- as many positions as a `PosList` that is scanned may have
abbrev pub IsShort : ReferenceSegment → Type 0
IsShort r = (0 < length r.pos_list) × (length r.pos_list < 2 ^ 32)

pub length-select :
    {T : Type 0} (passes : T → Bool) (chunk_id i : ℕ) (cs : List (Option T))
    → length (select passes chunk_id i cs) ≤ length cs
unfolding select
length-select passes chunk_id i [] = omega arith
length-select passes chunk_id i (none ∷ cs) =
    omega (arith, length-select passes chunk_id (suc i) cs)
length-select passes chunk_id i (some v ∷ cs) =
    ground (arith, length-select passes chunk_id (suc i) cs)

module _ {P : Platform} (build : Build) (store : Store P) (scan : Scan P) where
  pub positions-keep_found :
      (d : DataType) (address : ℕ) (ps : PosList) (others : List ReferenceSegment)
      → positions (keep_found build store scan d address ps others) ≡ ps ++ positions others
  unfolding keep_found
  positions-keep_found d address [] others = refl
  positions-keep_found d address (p ∷ ps) others = refl

  pub keep_found-table :
      (d : DataType) (address : ℕ) (ps : PosList) (others : List ReferenceSegment)
      → All (λ r. r.referenced_table ≡ address) others
      → All (λ r. r.referenced_table ≡ address) (keep_found build store scan d address ps others)
  unfolding keep_found
  keep_found-table d address [] others h = h
  keep_found-table d address (p ∷ ps) others h = (refl, h)

  pub keep_found-IsShort :
      (d : DataType) (address : ℕ) (ps : PosList) (others : List ReferenceSegment)
      → length ps < 2 ^ 32
      → All IsShort others
      → All IsShort (keep_found build store scan d address ps others)
        × (length (keep_found build store scan d address ps others) ≤ suc (length others))
  unfolding keep_found
  keep_found-IsShort d address [] others short h = (h, omega arith)
  keep_found-IsShort d address (p ∷ ps) others short h = (((omega arith, short), h), omega arith)
