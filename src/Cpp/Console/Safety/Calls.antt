-- ===== src/Cpp/Console/Safety/Calls.antt =====
-- my_Blocks_c++/: calls that end with a value.
use cs.Prelude.{
  ℕ, zero, suc, ◌+◌, ◌-◌, ◌<◌, ◌≤◌, ◌≡◌, minus_one, refl, Bool, true, false, List, [], ◌∷◌, arith,
  length, set, length-set, get_elem?_of_lt, ◌==◌, if◌then◌else◌, pos,
}
use cs.Prelude.Run.{Run, ok, fault, ◌>>=◌}
use cs.BlockMap.{BlockMap, get_bit, set_bit, clear_bit, alloc_from, free_block}
use cs.BlockMap.Dump.{dump_from, dump_full_from}
use cs.Cpp.Nodes.{INode, node_at, free_inode, set_inode}
use cs.Cpp.Console.Commands.{touch, dump_nodes}

-- A call ends with a value.
abbrev pub Ends : {V : Type 0} → Run V → Type 0
Ends {V} m = (v : V) × (m ≡ ok v)

pub >>=-Ends :
    {V W : Type 0} (m : Run V) (k : V → Run W)
    → Ends m
    → ((v : V) → m ≡ ok v → Ends (k v))
    → Ends (m >>= k)
>>=-Ends fault k (v, e) f = absurd (cc)
>>=-Ends (ok v) k h f = f v refl

pub ok_inj : {V : Type 0} {x y : V} → ok x ≡ ok y → x ≡ y
ok_inj e = cc

pub if-Ends :
    {W : Type 0} (c : Bool) (a b : Run W)
    → (c ≡ true → Ends a)
    → (c ≡ false → Ends b)
    → Ends (if c then a else b)
if-Ends true a b f g = f refl
if-Ends false a b f g = g refl

module _ (b : BlockMap) (i : ℕ) (lt : i < length b.bools) where
  get_bit-Ends : Ends (get_bit b i)
  unfolding get_bit
  get_bit-Ends = let (v, at) = get_elem?_of_lt b.bools i lt in (v, rw (get_bit, at) refl)

  pub set_bit-Ends : Ends (set_bit b i)
  unfolding set_bit
  set_bit-Ends =
      let (v, at) = get_elem?_of_lt b.bools i lt in
      (
        if v then (minus_one, b) else (pos 0, record b { bools = set b.bools i true }),
        rw (set_bit, at) refl,
      )

  clear_bit-Ends : Ends (clear_bit b i)
  unfolding clear_bit
  clear_bit-Ends =
      let (v, at) = get_elem?_of_lt b.bools i lt in
      (
        if v then (pos 0, record b { bools = set b.bools i false }) else (minus_one, b),
        rw (clear_bit, at) refl,
      )

  pub free_block-Ends : Ends (free_block b i)
  unfolding free_block
  free_block-Ends = >>=-Ends (clear_bit b i) _ clear_bit-Ends (λ r e. (r.1, refl))

pub dump_from-Ends :
    (n : ℕ) (b : BlockMap) (trig i : ℕ) → i + n ≤ length b.bools → Ends (dump_from n b trig i)
unfolding dump_from
dump_from-Ends zero b trig i le = (([], false), refl)
dump_from-Ends (suc n) b trig i le =
    >>=-Ends (get_bit b i) _ (get_bit-Ends b i (omega arith)) (λ v e.
      let rest = λ (t : ℕ). dump_from-Ends n b t (i + 1) (omega arith) in
      if-Ends v _ _
        (λ on. >>=-Ends (dump_from n b 8 (i + 1)) _ (rest 8) (λ r e'. ((v ∷ r.0, r.1), refl)))
        (λ off.
          if-Ends (trig == 0) _ _ (λ stop. ((v ∷ [], true), refl))
            (λ go.
              >>=-Ends (dump_from n b (trig - 1) (i + 1)) _ (rest (trig - 1))
                (λ r e'. ((v ∷ r.0, r.1), refl)))))

pub dump_full_from-Ends :
    (n : ℕ) (b : BlockMap) (i : ℕ) → i + n ≤ length b.bools → Ends (dump_full_from n b i)
unfolding dump_full_from
dump_full_from-Ends zero b i le = ([], refl)
dump_full_from-Ends (suc n) b i le =
    >>=-Ends (get_bit b i) _ (get_bit-Ends b i (omega arith)) (λ v e.
      >>=-Ends (dump_full_from n b (i + 1)) _ (dump_full_from-Ends n b (i + 1) (omega arith))
        (λ r e'. (v ∷ r, refl)))

pub alloc_from-Ends :
    (n : ℕ) (b : BlockMap) (i : ℕ) → i + n ≤ length b.bools → Ends (alloc_from n b i)
unfolding alloc_from
alloc_from-Ends zero b i le = (_, refl)
alloc_from-Ends (suc n) b i le = >>=-Ends (get_bit b i) _ (get_bit-Ends b i (omega arith)) (λ v e.
    if-Ends v _ _ (λ on. alloc_from-Ends n b (i + 1) (omega arith))
      (λ off.
        >>=-Ends (set_bit b i) _ (set_bit-Ends b i (omega arith)) (λ r e'. ((pos i, r.1), refl))))

module _ (m : List INode) (i : ℕ) (lt : i < length m) where
  node_at-Ends : Ends (node_at m i)
  unfolding node_at
  node_at-Ends = let (x, at) = get_elem?_of_lt m i lt in (x, rw (node_at, at) refl)

  pub free_inode-Ends : (m' : List INode) × (free_inode m i ≡ ok m') × (length m' ≡ length m)
  unfolding free_inode
  free_inode-Ends =
      let (x, at) = node_at-Ends in
      (set m i (record x { status = 0 }), rw (free_inode, at) refl, length-set m i _)

  pub set_inode-Ends : (m' : List INode) × (set_inode m i ≡ ok m') × (length m' ≡ length m)
  unfolding set_inode
  set_inode-Ends =
      let (x, at) = node_at-Ends in
      (set m i (record x { status = 1 }), rw (set_inode, at) refl, length-set m i _)

  pub touch-Ends : (now : ℕ) → Ends (touch now m i)
  unfolding touch
  touch-Ends now =
      let (x, at) = node_at-Ends in (set m i (record x { mdate = now }), rw (touch, at) refl)

pub dump_nodes-Ends : (n : ℕ) (m : List INode) (i : ℕ) → i + n ≤ length m → Ends (dump_nodes n m i)
unfolding dump_nodes
dump_nodes-Ends zero m i le = ([], refl)
dump_nodes-Ends (suc n) m i le = >>=-Ends (node_at m i) _ (node_at-Ends m i (omega arith)) (λ x e.
    >>=-Ends (dump_nodes n m (i + 1)) _ (dump_nodes-Ends n m (i + 1) (omega arith))
      (λ r e'. ((x.status, x.inode_num) ∷ r, refl)))
