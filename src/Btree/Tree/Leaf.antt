-- ===== src/Btree/Tree/Leaf.antt =====
-- Searches in a leaf after a write (src/btree/tree.rs, `insert_into_leaf`).
use sql.Common.{
  ℕ, suc, ◌+◌, ◌≡◌, ◌≤◌, refl, sym, ap, subst, ◌∙◌, arith, List, [], ◌∷◌, Option, some, Bool, true,
  false, if◌then◌else◌, Bool-cases, inl, inr, length, ◌>>=◌,
}
use sql.Common.Vec.{insert_at, set_at, partition_point}
use sql.Common.Bytes.{Bytes}
use sql.Btree.Node.{Key, Record, Node, key_lt, key_eq, is_leaf}
use sql.Btree.Node.Order.{key_compare_flip, key_compare-eq}
use sql.Btree.Tree.{find_record}
use sql.Btree.Tree.Insert.{is_key_at, leaf_position, replace_in_leaf, add_to_leaf}

abbrev pub keys_of : List Record → List Key
keys_of [] = []
keys_of (r ∷ rs) = r.key ∷ keys_of rs

key_eq→eq : (a b : Key) → key_eq a b ≡ true → a ≡ b
key_eq→eq a b h = ground (arith, key_compare-eq a b)

-- A key below `b` differs from `b`, in the test that asks for `q` too.
lt→ne : (a b q : Key) → key_lt a b ≡ true → key_eq a q ≡ true → key_eq b q ≡ false
lt→ne a b q h e =
    let same : a ≡ q = key_eq→eq a q e in
    subst (λ k. key_eq b k ≡ false) same (ground (arith, key_compare_flip a b))

-- The update of a leaf's records at a place: in place of the record there, or before it.
unfoldable pub put : Bool → ℕ → Record → List Record → Option (List Record)
put true pos r rs = set_at pos r rs
put false pos r rs = insert_at pos r rs

-- What a reader finds after a record is written.
abbrev pub found : Record → Key → Option Bytes → Option Bytes
found r q old = if key_eq r.key q then some r.value else old

abbrev pub place : Key → List Record → ℕ
place key rs = partition_point (λ k. key_lt k key) (keys_of rs)

-- The same update of its keys.
unfoldable pub put_key : Bool → ℕ → Key → List Key → Option (List Key)
put_key true pos k ks = some ks
put_key false pos k ks = insert_at pos k ks

unfoldable pub IsPut : Bool → ℕ → Record → List Record → Type 0
IsPut b pos r rs =
    (rs' : List Record) × ((put b pos r rs ≡ some rs')
      × ((put_key b pos r.key (keys_of rs) ≡ some (keys_of rs'))
          × (((q : Key) → find_record q rs' ≡ found r q (find_record q rs))
              × (length (keys_of rs') ≤ length (keys_of rs) + 1))))

find_past :
    (r x : Record) (q : Key) (o : Option Bytes)
    → key_lt x.key r.key ≡ true
    → found x q (found r q o) ≡ found r q (found x q o)
find_past r x q o h = elim (Bool-cases (key_eq x.key q)) [
  | inl e ↦ rw (lt→ne x.key r.key q h e) refl
  | inr e ↦ rw e refl
]

find_same :
    (r x : Record) (q : Key) (o : Option Bytes)
    → x.key ≡ r.key
    → found r q o ≡ found r q (found x q o)
find_same r x q o h = rw h (ground arith)

IsPut-past :
    (r x : Record) (rs : List Record) (pos : ℕ) (b : Bool)
    → key_lt x.key r.key ≡ true
    → IsPut b pos r rs
    → IsPut b (suc pos) r (x ∷ rs)
unfolding put put_key set_at insert_at IsPut find_record
IsPut-past r x rs pos true h (rs', (e, (k, (view, len)))) = (
  x ∷ rs',
  (
    rw e refl,
    (
      ap (λ o. o >>= λ ks. some (x.key ∷ ks)) k,
      (λ q. ap (found x q) (view q) ∙ find_past r x q (find_record q rs) h, omega arith),
    ),
  ),
)
IsPut-past r x rs pos false h (rs', (e, (k, (view, len)))) = (
  x ∷ rs',
  (
    rw e refl,
    (rw k refl, (λ q. ap (found x q) (view q) ∙ find_past r x q (find_record q rs) h, omega arith)),
  ),
)

IsPut-here :
    (r x : Record) (rs : List Record) (b : Bool) → key_eq x.key r.key ≡ b → IsPut b 0 r (x ∷ rs)
unfolding put put_key set_at insert_at IsPut find_record
IsPut-here r x rs true h =
    let same = key_eq→eq x.key r.key h in
    (
      r ∷ rs,
      (
        refl,
        (
          ap (λ k. some (k ∷ keys_of rs)) same,
          (λ q. find_same r x q (find_record q rs) same, omega arith),
        ),
      ),
    )
IsPut-here r x rs false h = (r ∷ (x ∷ rs), (refl, (refl, (λ q. refl, omega arith))))

IsPut-nil : (r : Record) → IsPut false 0 r []
unfolding put put_key insert_at IsPut find_record
IsPut-nil r = (r ∷ [], (refl, (refl, (λ q. refl, omega arith))))

IsPut-step :
    (r x : Record) (rs : List Record) (b : Bool) (p : ℕ)
    → key_lt x.key r.key ≡ b
    → IsPut (is_key_at p r.key (keys_of rs)) p r rs
    → (let n : ℕ = elim b [ true ↦ suc p | false ↦ 0 ] in
        IsPut (is_key_at n r.key (x.key ∷ keys_of rs)) n r (x ∷ rs))
unfolding is_key_at
IsPut-step r x rs true p h k = IsPut-past r x rs p _ h k
IsPut-step r x rs false p h k = IsPut-here r x rs (key_eq x.key r.key) refl

IsPut-place :
    (r : Record) (rs : List Record)
    → IsPut (is_key_at (place r.key rs) r.key (keys_of rs)) (place r.key rs) r rs
unfolding partition_point is_key_at
IsPut-place r [] = IsPut-nil r
IsPut-place r (x ∷ rs) =
    IsPut-step r x rs (key_lt x.key r.key) (place r.key rs) refl (IsPut-place r rs)

-- The keys of a leaf are the keys of its records.
abbrev pub IsShape : Node → Type 0
IsShape leaf = leaf.keys ≡ keys_of leaf.records

unfoldable pub write_at : Bool → ℕ → Record → Node → Option Node
unfolding replace_in_leaf add_to_leaf
write_at b pos r leaf = if b then replace_in_leaf pos r leaf else add_to_leaf pos r leaf

some_inj : (a b : List Key) → some a ≡ some b → a ≡ b
some_inj a b e = cc

-- A leaf with a record written: its shape, what its readers find, and the room it takes.
unfoldable pub IsWritten : Record → Node → Node → Type 0
IsWritten r leaf node =
    IsShape node
    × (((q : Key) → find_record q node.records ≡ found r q (find_record q leaf.records))
        × ((length node.keys ≤ length leaf.keys + 1) × (is_leaf node ≡ is_leaf leaf)))

write_at-put :
    (b : Bool) (pos : ℕ) (r : Record) (leaf : Node)
    → IsShape leaf
    → IsPut b pos r leaf.records
    → (node : Node) × ((write_at b pos r leaf ≡ some node) × IsWritten r leaf node)
unfolding write_at replace_in_leaf add_to_leaf IsPut put put_key IsWritten is_leaf
write_at-put true pos r leaf shape (rs', (e, (k, (view, len)))) = (
  record leaf { records = rs' },
  (
    rw e refl,
    (shape ∙ some_inj (keys_of leaf.records) (keys_of rs') k, (view, (omega arith, refl))),
  ),
)
write_at-put false pos r leaf shape (rs', (e, (k, (view, len)))) =
    let keys : insert_at pos r.key leaf.keys ≡ some (keys_of rs') =
      subst (λ ks. insert_at pos r.key ks ≡ some (keys_of rs')) (sym shape) k in
    let bound : length (keys_of rs') ≤ length leaf.keys + 1 =
      subst (λ ks. length (keys_of rs') ≤ length ks + 1) (sym shape) len in
    (
      record leaf { keys = keys_of rs'; records = rs' },
      (rw (keys, e) refl, (refl, (view, (bound, refl)))),
    )

-- The node that `insert_into_leaf` writes.
pub write_at-IsWritten :
    (r : Record) (leaf : Node)
    → IsShape leaf
    → (node : Node) × ((write_at
            (is_key_at (leaf_position r.key leaf) r.key leaf.keys)
            (leaf_position r.key leaf)
            r
            leaf
          ≡ some node)
        × IsWritten r leaf node)
unfolding leaf_position
write_at-IsWritten r leaf shape =
    write_at-put (is_key_at (leaf_position r.key leaf) r.key leaf.keys) (leaf_position r.key leaf) r
      leaf shape
      (subst
        (λ ks.
          let pos = partition_point (λ k. key_lt k r.key) ks in
          IsPut (is_key_at pos r.key ks) pos r leaf.records)
        (sym shape) (IsPut-place r leaf.records))
