-- ===== src/StorageManager/Map.antt =====
-- The storage manager as a map from names: what each operation does to the table under every name,
-- and the names that it lists.
use dyod_so_se.Algorithm.Order.{In}
use dyod_so_se.Outcome.{Outcome, ok, throw, table_exists, no_such_table}
use dyod_so_se.Prelude.Text.{Text, eqb_Text, eqb_Text_iff}
use dyod_so_se.Prelude.{
  ℕ, ◌≡◌, ◌↔◌, ◌⊎◌, inl, inr, refl, sym, ◌∙◌, true, false, List, [], ◌∷◌, ◌++◌, Option, none, some,
  if◌then◌else◌, arith, Bool-cases,
}
use dyod_so_se.StorageManager.{
  StorageManager, find, erase, has_table, add_table, drop_table, get_table, names_of, table_names,
}

-- no name twice
abbrev pub HasNoRepeat : List (Text × Option ℕ) → Type 0
HasNoRepeat [] = Unit
HasNoRepeat ((n, t) ∷ m) = (find n m ≡ none) × HasNoRepeat m

find-append :
    (name n : Text) (t : Option ℕ) (m : List (Text × Option ℕ))
    → find name (m ++ (n, t) ∷ [])
      ≡ elim (find name m) [ some x ↦ some x | none ↦ if eqb_Text n name then some t else none ]
unfolding find
find-append name n t [] = ground arith
find-append name n t ((k, x) ∷ m) = ground (arith, find-append name n t m)

find-erase :
    (name n : Text) (m : List (Text × Option ℕ))
    → HasNoRepeat m
    → find n (erase name m) ≡ (if eqb_Text name n then none else find n m)
unfolding find erase
find-erase name n [] h = ground arith
find-erase name n ((k, x) ∷ m) h = ground (
  arith,
  find-erase name n m h.1,
  eqb_Text_iff k name,
  eqb_Text_iff k n,
  eqb_Text_iff name n,
  h.0,
)

no_repeat-append :
    (m : List (Text × Option ℕ)) (name : Text) (t : Option ℕ)
    → HasNoRepeat m
    → find name m ≡ none
    → HasNoRepeat (m ++ (name, t) ∷ [])
unfolding find
no_repeat-append [] name t h miss = (refl, tt)
no_repeat-append ((n, x) ∷ m) name t h miss = (
  ground (arith, find-append n name t m, h.0, eqb_Text_iff n name, eqb_Text_iff name n),
  no_repeat-append m name t h.1 (ground arith),
)

find-erase-none :
    (name n : Text) (m : List (Text × Option ℕ)) → find n m ≡ none → find n (erase name m) ≡ none
unfolding find erase
find-erase-none name n [] h = h
find-erase-none name n ((k, x) ∷ m) h = ground (arith, find-erase-none name n m)

no_repeat-erase :
    (name : Text) (m : List (Text × Option ℕ)) → HasNoRepeat m → HasNoRepeat (erase name m)
unfolding erase
no_repeat-erase name [] h = tt
no_repeat-erase name ((n, x) ∷ m) h = elim (Bool-cases (eqb_Text n name)) [
  | inl e ↦ rw e h.1
  | inr ne ↦ rw ne (find-erase-none name n m h.0, no_repeat-erase name m h.1)
]

-- The tables by name, as a partial map
abbrev pub View : Type 0
View = Text → Option (Option ℕ)

abbrev pub update : View → Text → Option (Option ℕ) → View
update view name t n = if eqb_Text name n then t else view n

pub record Models (view : View) (sm : StorageManager) : Type 0 where
  pub no_repeat : HasNoRepeat sm.tables
  pub finds : (n : Text) → find n sm.tables ≡ view n

abbrev pub Becomes : Outcome StorageManager → View → Type 0
Becomes r view = (sm : StorageManager) × (r ≡ ok sm) × Models view sm

module _ (view : View) (sm : StorageManager) (models : Models view sm) where
  module _ (name : Text) where
    abbrev pub Added : Option ℕ → Option (Option ℕ) → Type 0
    Added table none = Becomes (add_table name table sm) (update view name (some table))
    Added table (some _) = add_table name table sm ≡ throw table_exists

    abbrev pub Dropped : Option (Option ℕ) → Type 0
    Dropped none = drop_table name sm ≡ throw no_such_table
    Dropped (some _) = Becomes (drop_table name sm) (update view name none)

    added :
        (table : Option ℕ) (before : Option (Option ℕ))
        → find name sm.tables ≡ before
        → Added table before
    unfolding add_table
    added table none e = (
      record { tables = sm.tables ++ (name, table) ∷ [] },
      ground (arith, e),
      record {
        no_repeat = no_repeat-append sm.tables name table models.no_repeat e;
        finds = λ n.
            ground (arith, find-append n name table sm.tables, models.finds n, eqb_Text_iff name n);
      },
    )
    added table (some t) e = ground (arith, e)

    dropped : (before : Option (Option ℕ)) → find name sm.tables ≡ before → Dropped before
    unfolding drop_table
    dropped none e = ground (arith, e)
    dropped (some t) e = (
      record { tables = erase name sm.tables },
      ground (arith, e),
      record {
        no_repeat = no_repeat-erase name sm.tables models.no_repeat;
        finds = λ n. ground (arith, find-erase name n sm.tables models.no_repeat, models.finds n);
      },
    )

    -- Where a storage manager stands for a map from names, `add_table` binds a name that is not
    -- bound, and changes no other, and throws at a name that is bound.
    pub add_table-Added : (table : Option ℕ) → Added table (view name)
    add_table-Added table = added table (view name) (models.finds name)

    -- Where a storage manager stands for a map from names, `drop_table` unbinds a name that is
    -- bound, and changes no other, and throws at a name that is not bound.
    pub drop_table-Dropped : Dropped (view name)
    drop_table-Dropped = dropped (view name) (models.finds name)

    -- Where a storage manager stands for a map from names, `get_table` returns the table that is
    -- bound to a name and throws where there is none, and `has_table` tells whether there is one.
    pub get_table-view :
        (get_table name sm ≡ elim (view name) [ none ↦ throw no_such_table | some t ↦ ok t ])
        × (has_table name sm ≡ elim (view name) [ none ↦ false | some _ ↦ true ])
    unfolding get_table has_table
    get_table-view = (ground (arith, models.finds name), ground (arith, models.finds name))

find-names_of :
    (name : Text) (m : List (Text × Option ℕ))
    → In name (names_of m)
    → (t : Option ℕ) × (find name m ≡ some t)
unfolding names_of find
find-names_of name [] i = absurd i
find-names_of name ((n, x) ∷ m) i = elim (Bool-cases (eqb_Text n name)) [
  | inl e ↦ (x, rw e)
  | inr ne ↦ rw ne (find-names_of name m (later i ne))
]
  where
    later : (name ≡ n) ⊎ In name (names_of m) → eqb_Text n name ≡ false → In name (names_of m)
    later (inl e) ne = ground (arith, (eqb_Text_iff n name).1)
    later (inr i) ne = i

names_of-find :
    (name : Text) (m : List (Text × Option ℕ)) (t : Option ℕ)
    → find name m ≡ some t
    → In name (names_of m)
unfolding names_of find
names_of-find name [] t e = cc
names_of-find name ((n, x) ∷ m) t e = elim (Bool-cases (eqb_Text n name)) [
  | inl same ↦ inl (sym ((eqb_Text_iff n name).0 same))
  | inr ne ↦ inr (names_of-find name m t (ground arith))
]

-- Where a storage manager stands for a map from names, `table_names` lists exactly the names that
-- are bound.
pub table_names_iff :
    (view : View) (sm : StorageManager)
    → Models view sm
    → (name : Text) → In name (table_names sm) ↔ ((t : Option ℕ) × (view name ≡ some t))
unfolding table_names
table_names_iff view sm models name = (
  λ i. rw (← models.finds name) (find-names_of name sm.tables i),
  λ (t, e). names_of-find name sm.tables t (models.finds name ∙ e),
)
