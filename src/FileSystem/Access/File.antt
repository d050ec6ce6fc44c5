-- ===== src/FileSystem/Access/File.antt =====
-- inode.c: what iNodeWrite stores is what iNodeRead gives back.
use cs.Prelude.{
  ℕ, zero, suc, ◌+◌, ◌-◌, ◌*◌, ◌<◌, ◌≤◌, ◌≡◌, refl, ap, sym, ◌∙◌, subst, true, false, Bool, List,
  ◌++◌, arith, length, min, take, drop, length-take, length-drop, take-add, get_elem?, some, none,
  Option, pos, ℤ, ltb, if◌then◌else◌,
}
use cs.Prelude.Run.{Run, ok, ◌>>=◌}
use cs.Device.{BlockDevice, read_block}
use cs.INode.{INode, block_ptrs_per_inode}
use cs.FileSystem.{FileSystem}
use cs.FileSystem.Access.{
  get_disk_address_of_block, fetch, read_loop, write_loop, write_round, again, patch,
}
use cs.FileSystem.Access.Address.{Ready, StandsAt, free_blocks, address-StandsAt}
use cs.FileSystem.Access.Copy.{drop-patch}
use cs.FileSystem.Access.Step.{Wrote, write_round-Wrote}

-- The bytes of one round, and where a loop of `n` rounds ends.
abbrev pub step : ℕ → ℕ → ℕ → ℕ → ℕ
step b num off buff = min (b - off) (num - buff)

abbrev pub span : ℕ → ℕ → ℕ → ℕ → ℕ → ℕ
span b num zero off buff = buff
span b num (suc n) off buff = span b num n 0 (buff + step b num off buff)

pub span_all :
    (b num n off buff : ℕ)
    → off ≤ b
    → buff ≤ num
    → num + off ≤ buff + n * b
    → span b num n off buff ≡ num
span_all b num zero off buff h le cover = omega arith
span_all b num (suc n) off buff h le cover =
    span_all b num n 0 (buff + step b num off buff) (omega arith) (omega arith) (omega arith)

-- The blocks of `b` bytes from `i` on hold the bytes of the buffer from `buff` on.
abbrev pub Filled : ℕ → BlockDevice → List ℤ → ℕ → List ℕ → ℕ → ℕ → ℕ → ℕ → Type 0
Filled b bd ps num buffer zero i off buff = Unit
Filled b bd ps num buffer (suc n) i off buff =
    ((a : ℕ) × (t : List ℕ) × (get_elem? ps i ≡ some (pos a))
      × (0 < a)
      × (read_block bd (pos a) ≡ (true, t))
      × (take (step b num off buff) (drop off t) ≡ take (step b num off buff) (drop buff buffer)))
    × Filled b bd ps num buffer n (i + 1) 0 (buff + step b num off buff)

fetch-ok :
    (bd : BlockDevice) (a : ℕ) {t : List ℕ}
    → read_block bd (pos a) ≡ (true, t)
    → fetch bd (pos a) ≡ some t
unfolding fetch
fetch-ok bd a {t} read = ap (λ (r : Bool × List ℕ). if r.0 then some r.1 else none) read

read_loop-suc :
    (fs : FileSystem) (k num n i off buff a : ℕ) (acc : List ℕ) {t : List ℕ}
    → get_disk_address_of_block fs k i false ≡ ok (pos a, fs)
    → read_block fs.block_device (pos a) ≡ (true, t)
    → read_loop fs k num (suc n) i off buff acc
      ≡ read_loop fs k num n
          (i + 1)
          0
          (buff + step fs.block_device.bytes_per_block num off buff)
          (acc ++ take (step fs.block_device.bytes_per_block num off buff) (drop off t))
unfolding read_loop
read_loop-suc fs k num n i off buff a acc found read =
    let m = step fs.block_device.bytes_per_block num off buff in
    let next : Option (List ℕ) → Run (ℕ × List ℕ) = λ o. elim o [
      | none ↦ ok (buff, acc)
      | some tbuf ↦ read_loop fs k num n (i + 1) 0 (buff + m) (acc ++ take m (drop off tbuf))
    ] in
    ap (λ (r : Run (ℤ × FileSystem)). r >>= λ found. next (fetch fs.block_device found.0)) found
    ∙ ap next (fetch-ok fs.block_device a read)

-- The loop of `iNodeRead` over blocks that hold a buffer gives the buffer.
pub read_loop-Filled :
    (n : ℕ) (fs : FileSystem) (k : ℕ) (x : INode) (num : ℕ) (buffer : List ℕ) (i off buff : ℕ)
    → Ready fs k x
    → i + n ≤ block_ptrs_per_inode
    → Filled fs.block_device.bytes_per_block fs.block_device x.block_ptrs num buffer n i off buff
    → read_loop fs k num n i off buff (take buff buffer)
      ≡ ok (
        span fs.block_device.bytes_per_block num n off buff,
        take (span fs.block_device.bytes_per_block num n off buff) buffer,
      )
unfolding read_loop
read_loop-Filled zero fs k x num buffer i off buff r le f = refl
read_loop-Filled (suc n) fs k x num buffer i off buff r le ((a, t, at, h, read, same), rest) =
    let b = fs.block_device.bytes_per_block in
    let found =
      address-StandsAt fs k i a false x r (omega arith) (record { pointer = at; positive = h }) in
    read_loop-suc fs k num n i off buff a (take buff buffer) found read
    ∙ ap (read_loop fs k num n (i + 1) 0 (buff + step b num off buff))
        (ap (λ s. take buff buffer ++ s) same ∙ sym (take-add buff (step b num off buff) buffer))
    ∙ read_loop-Filled n fs k x num buffer (i + 1) 0 (buff + step b num off buff) r (omega arith)
        rest

-- What the loop of `iNodeWrite` has done.
pub record Stored (fs : FileSystem) (k num : ℕ) (buffer : List ℕ) (n i off buff : ℕ) (x : INode)
    (fs' : FileSystem) (x' : INode) : Type 0 where
  pub runs :
      write_loop fs k num buffer n i off buff
      ≡ ok (true, span fs.block_device.bytes_per_block num n off buff, fs')
  pub ready : Ready fs' k x'
  pub same_block : fs'.block_device.bytes_per_block ≡ fs.block_device.bytes_per_block
  pub filled :
      Filled fs.block_device.bytes_per_block fs'.block_device x'.block_ptrs num buffer n i off buff
  pub kept :
      (c d : ℕ)
      → c < i
      → StandsAt x c d
      → StandsAt x' c d × (read_block fs'.block_device (pos d) ≡ read_block fs.block_device (pos d))
  pub same_bytes : x'.num_bytes ≡ x.num_bytes
  pub same_master : fs'.master_block ≡ fs.master_block

write_loop-suc :
    (fs fs1 : FileSystem) (k num n i off buff : ℕ) (buffer : List ℕ)
    → buff + step fs.block_device.bytes_per_block num off buff ≤ length buffer
    → write_round fs k i off
        (take (step fs.block_device.bytes_per_block num off buff) (drop buff buffer))
      ≡ ok (again fs1)
    → write_loop fs k num buffer (suc n) i off buff
      ≡ write_loop fs1 k num buffer n
          (i + 1)
          0
          (buff + step fs.block_device.bytes_per_block num off buff)
unfolding write_loop
write_loop-suc fs fs1 k num n i off buff buffer le runs =
    let fits : ltb (length buffer) (buff + step fs.block_device.bytes_per_block num off buff)
        ≡ false =
      ground arith in
    rw (write_loop, fits, runs)

-- One round, then the rest of the loop behind it.
module _ {fs : FileSystem} {k num : ℕ} {buffer : List ℕ} {n i off buff : ℕ} {x : INode}
    {fs1 : FileSystem} {x1 : INode} {a : ℕ} {t : List ℕ} {fs2 : FileSystem} {x2 : INode}
    (small : off ≤ fs.block_device.bytes_per_block) (inside : buff ≤ num)
    (len : num ≡ length buffer)
    (w : Wrote fs k i off
      (take (step fs.block_device.bytes_per_block num off buff) (drop buff buffer))
      x
      fs1
      x1
      a
      t)
    (st : Stored fs1 k num buffer n
      (i + 1)
      0
      (buff + step fs.block_device.bytes_per_block num off buff)
      x1
      fs2
      x2) where
  abbrev bytes_now : List ℕ
  bytes_now = take (step fs.block_device.bytes_per_block num off buff) (drop buff buffer)

  length-bytes_now : length bytes_now ≡ step fs.block_device.bytes_per_block num off buff
  length-bytes_now = omega (
    arith,
    length-take (step fs.block_device.bytes_per_block num off buff) (drop buff buffer),
    length-drop buff buffer,
  )

  kept_both :
      (c d : ℕ)
      → c < i
      → StandsAt x c d
      → StandsAt x2 c d × (read_block fs2.block_device (pos d) ≡ read_block fs.block_device (pos d))
  kept_both c d lt s =
      let (s1, read1) = w.kept c d (omega arith) s in
      let (s', read') = st.kept c d (omega arith) s1 in (s', read' ∙ read1)

  Filled-both :
      Filled fs.block_device.bytes_per_block fs2.block_device x2.block_ptrs num buffer
        (suc n)
        i
        off
        buff
  Filled-both =
      let (s2, read2) = st.kept i a (omega arith) w.stands in
      (
        (
          a,
          patch t off bytes_now,
          s2.pointer,
          s2.positive,
          read2 ∙ w.block,
          subst (λ c. take c (drop off (patch t off bytes_now)) ≡ bytes_now) length-bytes_now
              (drop-patch t off bytes_now (omega (arith, w.size))),
        ),
        subst
            (λ c.
              Filled c fs2.block_device x2.block_ptrs num buffer n (i + 1) 0
                (buff + step fs.block_device.bytes_per_block num off buff))
            w.same_block st.filled,
      )

  runs_both :
      write_loop fs k num buffer (suc n) i off buff
      ≡ ok (true, span fs.block_device.bytes_per_block num (suc n) off buff, fs2)
  runs_both =
      write_loop-suc fs fs1 k num n i off buff buffer (omega arith) w.runs
      ∙ st.runs
      ∙ ap
          (λ c.
            ok (
              true,
              span c num n 0 (buff + step fs.block_device.bytes_per_block num off buff),
              fs2,
            ))
          w.same_block

  Stored-suc : Stored fs k num buffer (suc n) i off buff x fs2 x2
  Stored-suc = record {
    runs = runs_both;
    ready = st.ready;
    same_block = st.same_block ∙ w.same_block;
    filled = Filled-both;
    kept = kept_both;
    same_bytes = st.same_bytes ∙ w.same_bytes;
    same_master = st.same_master ∙ w.same_master;
  }

-- On a file system in order with a free block for each round, the loop of `iNodeWrite` inside the
-- sixteen blocks runs to its end and leaves the buffer in the blocks.
pub write_loop-Stored :
    (n : ℕ) (fs : FileSystem) (k : ℕ) (x : INode) (num : ℕ) (buffer : List ℕ) (i off buff : ℕ)
    → Ready fs k x
    → i + n ≤ block_ptrs_per_inode
    → n ≤ free_blocks fs
    → off ≤ fs.block_device.bytes_per_block
    → buff ≤ num
    → num ≡ length buffer
    → (fs' : FileSystem) × (x' : INode) × Stored fs k num buffer n i off buff x fs' x'
unfolding write_loop
write_loop-Stored zero fs k x num buffer i off buff r le room h small len = (
  fs,
  x,
  record {
    runs = refl;
    ready = r;
    same_block = refl;
    filled = tt;
    kept = λ c d lt s. (s, refl);
    same_bytes = refl;
    same_master = refl;
  },
)
write_loop-Stored (suc n) fs k x num buffer i off buff r le room h small len =
    let m = step fs.block_device.bytes_per_block num off buff in
    let (fs1, x1, a, t, w) =
      write_round-Wrote fs k i off (take m (drop buff buffer)) x r (omega arith) (omega arith)
        (omega (arith, length-take m (drop buff buffer))) in
    let (fs2, x2, st) =
      write_loop-Stored n fs1 k x1 num buffer (i + 1) 0 (buff + m) w.ready (omega arith)
        (omega (arith, w.taken)) (omega arith) (omega arith) len in
    (fs2, x2, Stored-suc h small len w st)
