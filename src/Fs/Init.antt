-- ===== src/Fs/Init.antt =====
-- `tmpfs_init` of kernel/src/fs/tmpfs.c makes a tree with an empty root, and what a lookup through a file
-- leaves open.
use mathlib.Core.Path.{subst}
use ded_os.Base.{
  ℕ, ◌+◌, ◌≤◌, ◌<◌, ◌≡◌, sym, ◌∙◌, ap, inr, true, some, [], ◌∷◌, arith, ◌==◌, ==_iff, ==-ne,
  ==_self, if_true, if_false,
}
use ded_os.Base.Memory.{update, update_self}
use ded_os.Fs.{Files, TmpfsNode, VfsNode, tmpfs, vfs_directory}
use ded_os.Fs.Dir.{tmpfs_create_vnode, tmpfs_node_size, vfs_node_size}
use ded_os.Fs.Vfs.{slash}
use ded_os.Fs.Tmpfs.{tmpfs_init}
use ded_os.Fs.Inv.{Allocator, IsNode, IsTree}
use ded_os.Fs.Close.{clash}

module _ {H : Type 0} {kmalloc : ℕ → H → H × ℕ} {kfree : ℕ → H → H} (a : Allocator H kmalloc kfree)
    (s : Files H) (blocks : 1 < a.left s.heap) where
  node_size : tmpfs_node_size ≤ a.largest
  node_size = omega (arith, a.node_room)

  root : ℕ
  root = (kmalloc tmpfs_node_size s.heap).1

  heap : H
  heap = (kmalloc tmpfs_node_size s.heap).0

  vnode : ℕ
  unfolding heap
  vnode = (kmalloc vfs_node_size heap).1

  root_node : TmpfsNode
  root_node = record {
    name = slash ∷ [];
    flags = vfs_directory;
    size = 0;
    contents = [];
    next = 0;
    children = 0;
  }

  root_vnode : VfsNode
  unfolding root
  root_vnode = record {
    name = slash ∷ [];
    flags = vfs_directory;
    size = 0;
    device = root;
    read = some tmpfs;
    finddir = some tmpfs;
  }

  start : Files H
  unfolding heap root vnode root_node root_vnode
  start = record {
    heap = (kmalloc vfs_node_size heap).0;
    internal = update s.internal root root_node;
    nodes = update s.nodes vnode root_vnode;
    root_internal = root;
    vfs_root = vnode;
  }

  root_fewer : a.left s.heap ≤ a.left heap + 1
  unfolding heap
  root_fewer = a.fewer tmpfs_node_size s.heap (omega arith) node_size (omega arith)

  tmpfs_init_lem : tmpfs_init kmalloc s ≡ start
  unfolding tmpfs_init start tmpfs_create_vnode heap root vnode root_node root_vnode
  tmpfs_init_lem =
      let node = update s.internal root root_node in
      let made : VfsNode → Files H = λ n. record {
        heap = (kmalloc vfs_node_size heap).0;
        internal = node;
        nodes = update s.nodes vnode n;
        root_internal = root;
        vfs_root = vnode;
      } in
      let same : (n : TmpfsNode) → VfsNode = λ n. record {
        name = n.name;
        flags = n.flags;
        size = n.size;
        device = root;
        read = some tmpfs;
        finddir = some tmpfs;
      } in
      ap (λ (r : Files H × ℕ). record r.0 { vfs_root = r.1 })
        (if_false _ _ _
          (==-ne root 0 (a.nonnull tmpfs_node_size s.heap (omega arith) node_size (omega arith))))
      ∙ ap (λ n. made (same n)) (update_self s.internal root root_node)

  init-IsTree :
      IsTree a (λ d. d == (tmpfs_init kmalloc s).root_internal) (λ d. []) (tmpfs_init kmalloc s)
  unfolding start root heap vnode root_node root_vnode
  init-IsTree =
      let at_root = update_self s.internal root root_node in
      let at_vnode = update_self s.nodes vnode root_vnode in
      let root_used : a.used heap root ≡ true =
        a.taken tmpfs_node_size s.heap root (omega arith) node_size (omega arith)
        ∙ if_true _ _ _ (==_self root) in
      subst (λ (t : Files H). IsTree a (λ d. d == t.root_internal) (λ d. []) t) (sym tmpfs_init_lem)
        (record {
          nodes = λ d e.
              subst (IsNode a (λ d. d == root) (λ d. []) start) (sym ((==_iff d root).0 e))
                (record {
                  some_node =
                      a.nonnull tmpfs_node_size s.heap (omega arith) node_size (omega arith);
                  in_use =
                      a.taken vfs_node_size heap root (omega arith) a.node_room
                        (omega (arith, root_fewer))
                      ∙ ground (arith, root_used);
                  kind = inr (ap (λ (n : TmpfsNode). n.flags) at_root);
                  linked = ap (λ (n : TmpfsNode). n.children) at_root;
                  below = tt;
                });
          root = ==_self root;
          root_dir = ap (λ (n : TmpfsNode). n.flags) at_root;
          mount = record {
            some_vnode =
                a.nonnull vfs_node_size heap (omega arith) a.node_room (omega (arith, root_fewer));
            in_use =
                a.taken vfs_node_size heap vnode (omega arith) a.node_room
                  (omega (arith, root_fewer))
                ∙ if_true _ _ _ (==_self vnode);
            no_node = ==-ne vnode root (λ e. clash (a.used heap root) root_used (
                ap (a.used heap) (sym e)
                ∙ a.fresh vfs_node_size heap (omega arith) a.node_room
                    (omega (arith, root_fewer))));
            device = ap (λ (n : VfsNode). n.device) at_vnode;
            same_flags =
                ap (λ (n : VfsNode). n.flags) at_vnode
                ∙ sym (ap (λ (n : TmpfsNode). n.flags) at_root);
            same_size =
                ap (λ (n : VfsNode). n.size) at_vnode
                ∙ sym (ap (λ (n : TmpfsNode). n.size) at_root);
            can_read = ap (λ (n : VfsNode). n.read) at_vnode;
            can_find = ap (λ (n : VfsNode). n.finddir) at_vnode;
          };
        })

  -- When the heap is sure to serve two requests, `tmpfs_init` makes a tree whose root is an empty directory,
  -- the only node of tmpfs, with an open node of the virtual file system that stands for it; the requests
  -- that are sure fall by two at most.
  pub tmpfs_init-IsTree :
      IsTree a (λ d. d == (tmpfs_init kmalloc s).root_internal) (λ d. []) (tmpfs_init kmalloc s)
      × (a.left s.heap ≤ a.left (tmpfs_init kmalloc s).heap + 2)
  unfolding start heap
  tmpfs_init-IsTree = (
    init-IsTree,
    subst (λ (t : Files H). a.left s.heap ≤ a.left t.heap + 2) (sym tmpfs_init_lem)
        (omega (
          arith,
          root_fewer,
          a.fewer vfs_node_size heap (omega arith) a.node_room (omega (arith, root_fewer)),
        )),
  )
