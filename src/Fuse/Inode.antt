-- ===== src/Fuse/Inode.antt =====
-- The reference counts of inodes (src/fuse.cpp, `retain_inode_count`, `release_inode_count`), and
-- the walks over a tree of them (`item_tree_unreferenced`, `item_tree_size`).
pub mod Trees
mod Tests
use ngs3fs.Prelude.{ℕ, ◌+◌, ◌-◌, Bool, true, false, ◌&&◌, ◌==◌, if◌then◌else◌, Option, none, some}

-- `UINT32_MAX`
abbrev pub count_max : ℕ
count_max = 4294967295

-- `none`: the call throws EOVERFLOW.
unfoldable pub retain_inode_count : ℕ → Option ℕ
retain_inode_count count = if count == count_max then none else some (count + 1)

-- Whether the count became zero, and the count.
unfoldable pub release_inode_count : ℕ → Bool × ℕ
release_inode_count count = if count == 0 then (false, 0) else (count == 1, count - 1)

-- The members of an inode that the walks read.
pub record Counts : Type 0 where
  pub detached : Bool
  pub nlookup : ℕ
  pub open_count : ℕ

-- An inode is a file or a directory with its children.
mutual
  pub data Item : Type 0 where
    file : Counts → Item
    directory : Counts → Items → Item

  pub data Items : Type 0 where
    no_items : Items
    items : Item → Items → Items

abbrev pub counts_of : Item → Counts
counts_of (file c) = c
counts_of (directory c children) = c

unfoldable pub is_unreferenced : Counts → Bool
is_unreferenced c = c.nlookup == 0 && c.open_count == 0

unfoldable mutual
  pub item_tree_unreferenced : Item → Bool
  item_tree_unreferenced (file c) = is_unreferenced c
  item_tree_unreferenced (directory c children) =
      is_unreferenced c && children_unreferenced children

  pub children_unreferenced : Items → Bool
  children_unreferenced no_items = true
  children_unreferenced (items child rest) =
      item_tree_unreferenced child && children_unreferenced rest

unfoldable pub item_tree_reclaimable : Item → Bool
item_tree_reclaimable item = (counts_of item).detached && item_tree_unreferenced item

unfoldable mutual
  pub item_tree_size : Item → ℕ
  item_tree_size (file c) = 1
  item_tree_size (directory c children) = 1 + children_size children

  pub children_size : Items → ℕ
  children_size no_items = 0
  children_size (items child rest) = item_tree_size child + children_size rest
