-- ===== src/Btree/Tree/Merge.antt =====
-- Two leaves that are merged (src/btree/tree.rs, `merge`).
use sql.Common.{
  ℕ, zero, suc, ◌+◌, ◌≡◌, ◌≢◌, refl, ap, sym, ◌∙◌, arith, List, [], ◌∷◌, ◌++◌, Option, none, some,
  true, length, All, length-append, append_assoc, if_neg, if_pos, ℕ_discrete, get_elem?,
  get_elem?-append,
}
use sql.Common.Vec.{remove_at}
use sql.Btree.Node.{Key, Record, Node, is_leaf}
use sql.Btree.Tree.{BPlusTree}
use sql.Btree.Tree.Insert.{read}
use sql.Btree.Tree.Delete.{join, drop_child, read_family, merge}
use sql.Pager.Storage.{Storage}
use sql.Pager.Storage.Coherent.{IsStore}

abbrev Pages : Type 0
Pages = ℕ → Option Node

part_of : {A : Type 0} → (Node → List A) → Option Node → List A
part_of part none = []
part_of part (some node) = part node

-- What the pages under a node hold, from left to right.
unfoldable pub gather : {A : Type 0} → (Node → List A) → (ℕ → Option Node) → List ℕ → List A
unfolding part_of
gather part pages [] = []
gather part pages (id ∷ ids) = part_of part (pages id) ++ gather part pages ids

remove_at_between :
    {A : Type 0} (n : ℕ) (xs : List A) (x : A) (ys : List A)
    → length xs ≡ n
    → remove_at n (xs ++ (x ∷ ys)) ≡ some (x, xs ++ ys)
unfolding remove_at
remove_at_between zero [] x ys e = refl
remove_at_between zero (z ∷ xs) x ys e = absurd (omega arith)
remove_at_between (suc n) [] x ys e = absurd (omega arith)
remove_at_between (suc n) (z ∷ xs) x ys e = rw (remove_at_between n xs x ys (omega arith)) refl

All-imp : (P Q : ℕ → Type 0) (is : List ℕ) → ((i : ℕ) → P i → Q i) → All P is → All Q is
All-imp P Q [] f h = tt
All-imp P Q (i ∷ is) f h = (f i h.0, All-imp P Q is f h.1)

module _ {A : Type 0} (part : Node → List A) where
  gather-append :
      (pages : Pages) (is js : List ℕ)
      → gather part pages (is ++ js) ≡ gather part pages is ++ gather part pages js
  unfolding gather
  gather-append pages [] js = refl
  gather-append pages (i ∷ is) js =
      ap (λ x. part_of part (pages i) ++ x) (gather-append pages is js)
      ∙ sym (append_assoc (part_of part (pages i)) (gather part pages is) (gather part pages js))

  gather-same :
      (old new : Pages) (is : List ℕ)
      → All (λ i. new i ≡ old i) is
      → gather part new is ≡ gather part old is
  unfolding gather
  gather-same old new [] h = refl
  gather-same old new (i ∷ is) h = rw (h.0, gather-same old new is h.1) refl

  -- One page that holds what two pages held.
  gather-merged :
      (old new : Pages) (cl cr : List ℕ) (l r : ℕ) (left right node : Node)
      → All (λ i. new i ≡ old i) cl
      → All (λ i. new i ≡ old i) cr
      → old l ≡ some left
      → old r ≡ some right
      → new l ≡ some node
      → part node ≡ part left ++ part right
      → gather part new (cl ++ (l ∷ cr)) ≡ gather part old (cl ++ (l ∷ (r ∷ cr)))
  unfolding gather part_of
  gather-merged old new cl cr l r left right node hl hr el er en e =
      gather-append new cl (l ∷ cr)
      ∙ rw
          (
            en,
            e,
            gather-same old new cl hl,
            gather-same old new cr hr,
            gather-append old cl (l ∷ (r ∷ cr)),
            el,
            er,
            append_assoc (part left) (part right) (gather part old cr),
          )
          refl

drop_child-between :
    (pos : ℕ) (pn : Node) (kl kr : List Key) (k : Key) (cl cr : List ℕ) (l r : ℕ)
    → pn.keys ≡ kl ++ (k ∷ kr)
    → length kl ≡ pos
    → pn.children ≡ cl ++ (l ∷ (r ∷ cr))
    → length cl ≡ pos
    → drop_child pos pn ≡ some (record pn { keys = kl ++ kr; children = cl ++ (l ∷ cr) })
unfolding drop_child
drop_child-between pos pn kl kr k cl cr l r keys kpos children cpos =
    let drop_key : remove_at pos pn.keys ≡ some (k, kl ++ kr) =
      ap (remove_at pos) keys ∙ remove_at_between pos kl k kr kpos in
    let drop_page : remove_at (pos + 1) pn.children ≡ some (r, cl ++ (l ∷ cr)) =
      ap (remove_at (pos + 1)) (children ∙ sym (append_assoc cl (l ∷ []) (r ∷ cr)))
      ∙ remove_at_between (pos + 1) (cl ++ (l ∷ [])) r cr (omega (arith, length-append cl (l ∷ [])))
      ∙ ap (λ x. some (r, x)) (append_assoc cl (l ∷ []) cr) in
    rw (drop_key, drop_page) refl

get_second :
    (cl cr : List ℕ) (l r pos : ℕ)
    → length cl ≡ pos
    → get_elem? (cl ++ (l ∷ (r ∷ cr))) (pos + 1) ≡ some r
get_second cl cr l r pos e =
    ap (λ x. get_elem? x (pos + 1)) (sym (append_assoc cl (l ∷ []) (r ∷ cr)))
    ∙ get_elem?-append (cl ++ (l ∷ [])) cr r (pos + 1) (omega (arith, length-append cl (l ∷ [])))

module _ {S : Type 0} (st : Storage S) (contents : S → ℕ → Option Node)
    (law : IsStore st contents) where
  -- The pages that are not written.
  unwritten :
      (a b : ℕ) (x y : Node) (s : S) (old : Pages) (is : List ℕ)
      → ((q : ℕ) → contents s q ≡ old q)
      → All (λ i. (i ≢ a) × (i ≢ b)) is
      → All (λ i. contents (st.write_node a x (st.write_node b y s)) i ≡ old i) is
  unwritten a b x y s old is same h =
      All-imp _ _ is
        (λ i k.
          law.write_node a i x (st.write_node b y s)
          ∙ if_neg (ℕ_discrete a i) (λ e. k.0 (sym e)) _ _
          ∙ law.write_node b i y s
          ∙ if_neg (ℕ_discrete b i) (λ e. k.1 (sym e)) _ _
          ∙ same i)
        h

  -- Over any lawful storage, the leaves on two pages that are neighbours under a parent with a key
  -- at their place are merged, where no other child has the page of the parent or of the left leaf:
  -- merge succeeds; the parent has one child less and all keys but that one; what its children hold
  -- from left to right, keys and records, is as it was; and the left page goes on to the leaf that
  -- the right one went on to.
  pub merge-gather :
      (parent pos : ℕ) (t : BPlusTree S) (pn left right : Node) (kl kr : List Key) (k : Key)
      (cl cr : List ℕ) (l r : ℕ)
      → contents t.storage parent ≡ some pn
      → contents t.storage l ≡ some left
      → contents t.storage r ≡ some right
      → is_leaf left ≡ true
      → pn.keys ≡ kl ++ (k ∷ kr)
      → length kl ≡ pos
      → pn.children ≡ cl ++ (l ∷ (r ∷ cr))
      → length cl ≡ pos
      → l ≢ parent
      → All (λ i. (i ≢ parent) × (i ≢ l)) cl
      → All (λ i. (i ≢ parent) × (i ≢ l)) cr
      → (t' : BPlusTree S) × ((pn' : Node) × ((left' : Node) × ((merge st parent pos t ≡ some t')
              × (contents t'.storage parent ≡ some pn')
              × (contents t'.storage l ≡ some left')
              × (pn'.keys ≡ kl ++ kr)
              × (length pn'.children + 1 ≡ length pn.children)
              × (left'.next_leaf ≡ right.next_leaf)
              × (gather (λ n. n.keys) (contents t'.storage) pn'.children
                  ≡ gather (λ n. n.keys) (contents t.storage) pn.children)
              × (gather (λ n. n.records) (contents t'.storage) pn'.children
                  ≡ gather (λ n. n.records) (contents t.storage) pn.children))))
  unfolding merge read_family read join
  merge-gather parent pos t pn left right kl kr k cl cr l r held hl hr leaf keys kpos children cpos
        apart al ar =
      let (s1, (e1, same1)) = law.read_node parent t.storage pn held in
      let (s2, (e2, same2)) = law.read_node l s1 left (same1 l ∙ hl) in
      let (s3, (e3, same3)) = law.read_node r s2 right (same2 r ∙ (same1 r ∙ hr)) in
      let same : (q : ℕ) → contents s3 q ≡ contents t.storage q =
        λ q. same3 q ∙ (same2 q ∙ same1 q) in
      let left' : Node = record left {
        keys = left.keys ++ right.keys;
        records = left.records ++ right.records;
        next_leaf = right.next_leaf;
      } in
      let pn' : Node = record pn { keys = kl ++ kr; children = cl ++ (l ∷ cr) } in
      let s' = st.write_node parent pn' (st.write_node l left' s3) in
      let first : get_elem? pn.children pos ≡ some l =
        ap (λ x. get_elem? x pos) children ∙ get_elem?-append cl (r ∷ cr) l pos (sym cpos) in
      let second : get_elem? pn.children (pos + 1) ≡ some r =
        ap (λ x. get_elem? x (pos + 1)) children ∙ get_second cl cr l r pos cpos in
      let at_left : contents s' l ≡ some left' =
        law.write_node parent l pn' (st.write_node l left' s3)
        ∙ if_neg (ℕ_discrete parent l) (λ e. apart (sym e)) _ _
        ∙ law.write_node l l left' s3
        ∙ if_pos (ℕ_discrete l l) refl _ _ in
      let gathered : (A : Type 0) (part : Node → List A)
          → part left' ≡ part left ++ part right
          → gather part (contents s') (cl ++ (l ∷ cr))
            ≡ gather part (contents t.storage) pn.children =
        λ A part e.
          gather-merged part (contents t.storage) (contents s') cl cr l r left right left'
            (unwritten parent l pn' left' s3 (contents t.storage) cl same al)
            (unwritten parent l pn' left' s3 (contents t.storage) cr same ar) hl hr at_left e
          ∙ ap (gather part (contents t.storage)) (sym children) in
      (
        record t { storage = s' },
        (
          pn',
          (
            left',
            (
              rw
                  (
                    e1,
                    first,
                    second,
                    e2,
                    e3,
                    leaf,
                    drop_child-between pos pn kl kr k cl cr l r keys kpos children cpos,
                  )
                  refl,
              law.write_node parent parent pn' (st.write_node l left' s3)
                  ∙ if_pos (ℕ_discrete parent parent) refl _ _,
              at_left,
              refl,
              omega (
                arith,
                ap length children,
                length-append cl (l ∷ (r ∷ cr)),
                length-append cl (l ∷ cr),
              ),
              refl,
              gathered Key (λ n. n.keys) refl,
              gathered Record (λ n. n.records) refl,
            ),
          ),
        ),
      )
