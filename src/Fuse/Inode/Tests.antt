-- ===== src/Fuse/Inode/Tests.antt =====
-- The theorems of the inode counts at concrete trees.
use ngs3fs.Prelude.{ℕ, ◌≡◌, ◌↔◌, refl, true, some}
use ngs3fs.Fuse.Inode.{
  retain_inode_count, Counts, Item, file, directory, no_items, items, counts_of,
  item_tree_reclaimable,
}
use ngs3fs.Fuse.Inode.Trees.{AllIdle, inodes, item_tree_reclaimable_iff}

abbrev counts : ℕ → Counts
counts open_count = record { detached = true; nlookup = 0; open_count = open_count }

-- A directory with an open file.
abbrev tree : Item
tree = directory (counts 0) (items (file (counts 1)) no_items)

item_tree_reclaimable_iff_example :
    (item_tree_reclaimable tree ≡ true)
    ↔ (((counts_of tree).detached ≡ true) × AllIdle (inodes tree))
item_tree_reclaimable_iff_example = item_tree_reclaimable_iff tree

retained_twice : retain_inode_count 1 ≡ some 2
unfolding retain_inode_count
retained_twice = refl
