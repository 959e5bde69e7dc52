-- ===== src/Bubblegum/ChangeLog/Replay.antt =====
-- insert_change_log of db.rs: a change log that is saved again, after others.
use das.Prelude.{
  any, ℕ, ◌+◌, ◌≡◌, refl, ◌∙◌, ap, fun_ext, Bool, true, false, inl, inr, Option, none, some, List,
  [], ◌∷◌, String, Text, arith, as_i64, ℤ, leb_ℤ, ◌==◌, ◌&&◌, Bool-cases,
}
use das.Database.{ClItem, Database}
use das.Bubblegum.Types.{Crates, ChangeLogEventV1, PathNode}
use das.Bubblegum.ChangeLog.{cl_item, cl_row}
use das.Bubblegum.ChangeLog.Order.{node_row, path_row, path_items_lem, saved, cl_items-saved}

-- There is a row, with this sequence number or a later one.
abbrev is_settled : ℤ → Option ClItem → Bool
is_settled s none = false
is_settled s (some r) = leb_ℤ s r.seq

cl_row-settled : (new : ClItem) (r : Option ClItem) → is_settled new.seq (cl_row new r) ≡ true
unfolding cl_row
cl_row-settled new none = ground arith
cl_row-settled new (some r) = ground arith

settled-cl_row : (new : ClItem) (r : Option ClItem) → is_settled new.seq r ≡ true → cl_row new r ≡ r
unfolding cl_row
settled-cl_row new none h = absurd (cc)
settled-cl_row new (some r) h = ground arith

module _ (e : ChangeLogEventV1) (j n : ℕ) where
  settled-node_row :
      (i : ℕ) (p : PathNode) (r : Option ClItem)
      → is_settled (as_i64 e.seq) r ≡ true
      → node_row e i p j n r ≡ r
  unfolding node_row cl_item
  settled-node_row i p r h = ground (arith, settled-cl_row (cl_item e i p) r h)

  settled-path_row :
      (i : ℕ) (ps : List PathNode) (r : Option ClItem)
      → is_settled (as_i64 e.seq) r ≡ true
      → path_row e i ps j n r ≡ r
  unfolding path_row
  settled-path_row i [] r h = refl
  settled-path_row i (p ∷ ps) r h =
      ap (path_row e (i + 1) ps j n) (settled-node_row i p r h) ∙ settled-path_row (i + 1) ps r h

  abbrev pub is_here : PathNode → Bool
  is_here p = e.id == j && p.index == n

  hit :
      (i : ℕ) (p : PathNode) (r : Option ClItem)
      → is_here p ≡ true
      → is_settled (as_i64 e.seq) (node_row e i p j n r) ≡ true
  unfolding node_row cl_item
  hit i p r h = ground (arith, cl_row-settled (cl_item e i p) r)

  miss : (i : ℕ) (p : PathNode) (r : Option ClItem) → is_here p ≡ false → node_row e i p j n r ≡ r
  unfolding node_row
  miss i p r h = ground arith

  pub path_miss :
      (i : ℕ) (ps : List PathNode) (r : Option ClItem)
      → any is_here ps ≡ false
      → path_row e i ps j n r ≡ r
  unfolding path_row
  path_miss i [] r h = refl
  path_miss i (p ∷ ps) r h =
      ap (path_row e (i + 1) ps j n) (miss i p r (ground arith))
      ∙ path_miss (i + 1) ps r (ground arith)

  path_hit :
      (i : ℕ) (ps : List PathNode) (r : Option ClItem)
      → any is_here ps ≡ true
      → is_settled (as_i64 e.seq) (path_row e i ps j n r) ≡ true
  unfolding path_row
  path_hit i [] r h = cc
  path_hit i (p ∷ ps) r h = elim (Bool-cases (is_here p)) [
    | inl here ↦
        ap (is_settled (as_i64 e.seq)) (settled-path_row (i + 1) ps _ (hit i p r here))
        ∙ hit i p r here
    | inr other ↦ path_hit (i + 1) ps (node_row e i p j n r) (ground arith)
  ]

-- A row keeps its sequence number or gets a later one.
cl_row_later :
    (s : ℤ) (new : ClItem) (r : Option ClItem)
    → is_settled s r ≡ true
    → is_settled s (cl_row new r) ≡ true
unfolding cl_row
cl_row_later s new none h = cc
cl_row_later s new (some r) h = ground arith

path_row_later :
    (s : ℤ) (f : ChangeLogEventV1) (i : ℕ) (ps : List PathNode) (j n : ℕ) (r : Option ClItem)
    → is_settled s r ≡ true
    → is_settled s (path_row f i ps j n r) ≡ true
unfolding path_row node_row
path_row_later s f i [] j n r h = h
path_row_later s f i (p ∷ ps) j n r h =
    path_row_later s f (i + 1) ps j n _ (ground (arith, h, cl_row_later s (cl_item f i p) r))

-- Change logs that are saved one after the other.
abbrev pub Saving : Type 0
Saving = ChangeLogEventV1 × ℕ × Text × String

module _ (crates : Crates) where
  pub saved_all : List Saving → Database → Database
  saved_all [] d = d
  saved_all ((f, slot, txn_id, s) ∷ fs) d = saved_all fs (saved crates f slot txn_id s d)

  pub row-saved :
      (e : ChangeLogEventV1) (slot : ℕ) (txn_id : Text) (s : String) (d : Database) (j n : ℕ)
      → (saved crates e slot txn_id s d).cl_items j n ≡ path_row e 0 e.path j n (d.cl_items j n)
  row-saved e slot txn_id s d j n =
      ap (λ t. t j n) (cl_items-saved crates e slot txn_id s d)
      ∙ path_items_lem e 0 e.path d.cl_items j n

  saved_all_later :
      (q : ℤ) (fs : List Saving) (d : Database) (j n : ℕ)
      → is_settled q (d.cl_items j n) ≡ true
      → is_settled q ((saved_all fs d).cl_items j n) ≡ true
  unfolding saved_all
  saved_all_later q [] d j n h = h
  saved_all_later q ((f, slot, txn_id, s) ∷ fs) d j n h =
      saved_all_later q fs _ j n
        (ap (is_settled q) (row-saved f slot txn_id s d j n) ∙ path_row_later q f 0 f.path j n _ h)

  -- Whatever is saved in between, the same change log changes nothing the second time.
  pub saved_again :
      (e : ChangeLogEventV1) (slot : ℕ) (txn_id : Text) (s : String) (fs : List Saving)
      (d : Database)
      → let later = saved_all fs (saved crates e slot txn_id s d) in
        (saved crates e slot txn_id s later).cl_items ≡ later.cl_items
  saved_again e slot txn_id s fs d = fun_ext λ j. fun_ext λ n. same j n
    where
      same :
          (j n : ℕ)
          → let later = saved_all fs (saved crates e slot txn_id s d) in
            (saved crates e slot txn_id s later).cl_items j n ≡ later.cl_items j n
      same j n =
          let later = saved_all fs (saved crates e slot txn_id s d) in
          row-saved e slot txn_id s later j n ∙ elim (Bool-cases (any (is_here e j n) e.path)) [
            | inl here ↦ settled-path_row e j n 0 e.path _ (
                saved_all_later (as_i64 e.seq) fs _ j n (
                  ap (is_settled (as_i64 e.seq)) (row-saved e slot txn_id s d j n)
                  ∙ path_hit e j n 0 e.path _ here))
            | inr other ↦ path_miss e j n 0 e.path _ other
          ]
