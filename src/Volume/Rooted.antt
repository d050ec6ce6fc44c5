-- ===== src/Volume/Rooted.antt =====
-- filesystem.c: the tree of a mounted file system has a root.
use cs.Prelude.{◌≡◌, refl, false, List, ltb}
use cs.Prelude.Run.{fault, assert}
use cs.Prelude.Always.{Always, ok-Always, fault-Always, option-Always, >>=-Always}
use cs.Device.{Entry, BlockDevice}
use cs.BitSet.{BitSet, read_block_map}
use cs.MasterBlock.{MasterBlock, bootstrap_device, read_master_block}
use cs.INode.{INode, allocate_inode_map, read_inode_map}
use cs.FileSystem.{FileSystem, null, get_inode}
use cs.Directory.{is_null, add_root}
use cs.Volume.{load_inodes, mount}

abbrev pub IsRooted : FileSystem → Type 0
IsRooted fs = is_null fs.root_dir ≡ false

-- What mount has read of a file system before its root.
abbrev unrooted : BlockDevice → MasterBlock → BitSet → List INode → FileSystem
unrooted bd mb map inm = record {
  block_device = bd;
  master_block = mb;
  block_map = map;
  inode_map = inm;
  root_dir = null;
}

load_inodes-IsRooted :
    (bd : BlockDevice) (mb : MasterBlock) (map : BitSet) → Always IsRooted (load_inodes bd mb map)
unfolding load_inodes add_root
load_inodes-IsRooted bd mb map = >>=-Always IsRooted (assert (ltb 0 mb.inode_count)) _ (λ d e.
    >>=-Always IsRooted (assert (ltb 1 mb.inode_map_address)) _ (λ d e.
      >>=-Always IsRooted (allocate_inode_map mb.inode_count false) _ (λ d e.
        >>=-Always IsRooted (read_inode_map bd mb.inode_map_address mb.inode_count) _ (λ got e.
          option-Always IsRooted got fault _ (fault-Always IsRooted) (λ inm e.
            >>=-Always IsRooted (get_inode (unrooted bd mb map inm) mb.root_dir_inode) _
              (λ i e. ok-Always IsRooted (add_root (unrooted bd mb map inm) i) refl))))))

pub mount-IsRooted : (host : Entry) → Always IsRooted (mount host)
unfolding mount
mount-IsRooted host = >>=-Always IsRooted (bootstrap_device host) _ (λ device e.
    option-Always IsRooted device fault _ (fault-Always IsRooted) (λ bd e.
      >>=-Always IsRooted (read_master_block bd 0) _ (λ master e.
        option-Always IsRooted master fault _ (fault-Always IsRooted) (λ mb e.
          >>=-Always IsRooted (read_block_map bd 1) _ (λ map e.
            option-Always IsRooted map fault _ (fault-Always IsRooted)
              (λ b e. load_inodes-IsRooted bd mb b))))))
