-- ===== src/Fuse/Inode/Trees.antt =====
-- The walks over a tree, by the list of all its inodes.
use ngs3fs.Prelude.{
  ℕ, ◌+◌, ◌-◌, Bool, true, false, ◌&&◌, ◌==◌, if_elim, List, [], ◌∷◌, ◌++◌, length, some, ◌≡◌, ◌↔◌,
  refl, arith, ap, sym, ◌∙◌, ap₂,
}
use ngs3fs.Prelude.Slices.{length-append}
use ngs3fs.Fuse.Inode.{
  count_max, retain_inode_count, release_inode_count, Counts, Item, file, directory, Items,
  no_items, items, counts_of, is_unreferenced, item_tree_unreferenced, children_unreferenced,
  item_tree_reclaimable, item_tree_size, children_size,
}

-- All the inodes of a tree.
unfoldable mutual
  pub inodes : Item → List Counts
  inodes (file c) = c ∷ []
  inodes (directory c children) = c ∷ inodes_of children

  pub inodes_of : Items → List Counts
  inodes_of no_items = []
  inodes_of (items child rest) = inodes child ++ inodes_of rest

unfoldable pub AllIdle : List Counts → Type 0
AllIdle [] = Unit
AllIdle (c ∷ cs) = (c.nlookup ≡ 0) × (c.open_count ≡ 0) × AllIdle cs

all_unreferenced : List Counts → Bool
all_unreferenced [] = true
all_unreferenced (c ∷ cs) = is_unreferenced c && all_unreferenced cs

all_unreferenced-append :
    (xs ys : List Counts)
    → all_unreferenced (xs ++ ys) ≡ (all_unreferenced xs && all_unreferenced ys)
unfolding all_unreferenced
all_unreferenced-append [] ys = refl
all_unreferenced-append (x ∷ xs) ys = rw (all_unreferenced-append xs ys) (ground arith)

mutual
  unfolding item_tree_unreferenced inodes all_unreferenced

  tree_walk : (item : Item) → item_tree_unreferenced item ≡ all_unreferenced (inodes item)
  tree_walk (file c) = ground arith
  tree_walk (directory c children) = ap (λ b. is_unreferenced c && b) (children_walk children)

  children_walk :
      (children : Items) → children_unreferenced children ≡ all_unreferenced (inodes_of children)
  children_walk no_items = refl
  children_walk (items child rest) =
      ap₂ (λ (a b : Bool). a && b) (tree_walk child) (children_walk rest)
      ∙ sym (all_unreferenced-append (inodes child) (inodes_of rest))

and_true : (a b : Bool) → (a && b) ≡ true → (a ≡ true) × (b ≡ true)
and_true true b h = (refl, h)
and_true false b h = absurd (cc)

true_and : (a b : Bool) → a ≡ true → b ≡ true → (a && b) ≡ true
true_and a b h k = rw (h, k) refl

all_unreferenced_iff : (cs : List Counts) → (all_unreferenced cs ≡ true) ↔ AllIdle cs
unfolding all_unreferenced AllIdle is_unreferenced
all_unreferenced_iff [] = (λ _. tt, λ _. refl)
all_unreferenced_iff (c ∷ cs) =
    let rest = all_unreferenced_iff cs in
    (
      λ h.
          let p = and_true (is_unreferenced c) (all_unreferenced cs) h in
          (ground (arith, p.0), ground (arith, p.0), rest.0 p.1),
      λ v.
          true_and (is_unreferenced c) (all_unreferenced cs) (ground (arith, v.0, v.1))
            (rest.1 v.2),
    )

mutual
  unfolding item_tree_size inodes

  tree_size : (item : Item) → item_tree_size item ≡ length (inodes item)
  tree_size (file c) = refl
  tree_size (directory c children) = omega (arith, children_length children)

  children_length : (children : Items) → children_size children ≡ length (inodes_of children)
  children_length no_items = refl
  children_length (items child rest) =
      omega (
        arith,
        tree_size child,
        children_length rest,
        length-append (inodes child) (inodes_of rest),
      )

-- A tree is reclaimable exactly if its root is detached, and no inode in it is looked up or open.
pub item_tree_reclaimable_iff :
    (item : Item)
    → (item_tree_reclaimable item ≡ true)
      ↔ (((counts_of item).detached ≡ true) × AllIdle (inodes item))
unfolding item_tree_reclaimable
item_tree_reclaimable_iff item =
    let all = all_unreferenced_iff (inodes item) in
    rw (tree_walk item) (
      λ h.
          let p = and_true (counts_of item).detached (all_unreferenced (inodes item)) h in
          (p.0, all.0 p.1),
      λ v. true_and (counts_of item).detached (all_unreferenced (inodes item)) v.0 (all.1 v.1),
    )

-- A count that was retained is released to what it was, and the release says whether that is zero.
pub release-retain :
    (count retained : ℕ)
    → retain_inode_count count ≡ some retained
    → release_inode_count retained ≡ (count == 0, count)
unfolding retain_inode_count release_inode_count
release-retain count retained =
    if_elim (λ o. o ≡ some retained → release_inode_count retained ≡ (count == 0, count))
      (count == count_max) (λ _ h. absurd (cc))
      (λ _ h.
        let same : retained ≡ count + 1 = cc in
        let above : (count + 1 == 0) ≡ false = ground arith in
        let one : (count + 1 == 1) ≡ (count == 0) = ground arith in
        let back : count + 1 - 1 ≡ count = omega arith in rw (same, above, one, back) refl)
