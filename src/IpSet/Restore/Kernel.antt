-- ===== src/IpSet/Restore/Kernel.antt =====
-- What the program relies on of `ipset restore -exist` (man ipset), as an interface: the effect of
-- each line on which sets there are, on their parameters and on what they hold, where ipset accepts
-- the line. Nothing is said of the state after a line that ipset refuses: a `create` over other
-- parameters, an entry that the set cannot take, a `swap` of sets of different parameters, or a
-- `destroy` of a set that is missing or used. An entry is known by its whole text, so the laws speak
-- of entries that differ in more than their options.
use kube_router.Prelude.{
  String, ◌≡◌, Bool, true, false, not, ◌&&◌, ◌||◌, List, [], ◌∷◌, ◌++◌, refl, if◌then◌else◌, ◌==◌,
}
use kube_router.Prelude.{any}
use kube_router.Prelude.Text.{join}
use kube_router.IpSet.{Set}
use kube_router.IpSet.Restore.{Line, create, flush, add, swap, destroy}

-- What can be asked of a state: the sets there are, their parameters, what they hold, and whether a
-- rule or another set refers to them.
pub record Sight (K : Type 0) : Type 0 where
  pub exists : K → String → Bool
  pub params : K → String → String
  pub member : K → String → String → Bool
  pub used : K → String → Bool

-- The state `k'` in terms of the state `k` before it.
pub record Becomes {K : Type 0} (see : Sight K) (k k' : K) (there : String → Bool)
    (kind : String → String) (contents : String → String → Bool) : Type 0 where
  pub exists : (n : String) → see.exists k' n ≡ there n
  pub params : (n : String) → see.params k' n ≡ kind n
  pub member : (n e : String) → see.member k' n e ≡ contents n e
  pub unused : (n : String) → see.used k n ≡ false → see.used k' n ≡ false

pub record Kernel (K : Type 0) : Type 0 where
  pub see : Sight K
  pub apply : Line → K → K
  -- The options that ipset understands, the parameters that they stand for, and whether a set of some
  -- parameters can hold these entries at once: each of its type, and no more than it has room for.
  pub supports : String → Bool
  pub canonical : String → String
  pub fits : String → (String → Bool) → Bool
  pub fits-fewer :
      (o : String) (p q : String → Bool)
      → ((e : String) → p e ≡ true → q e ≡ true)
      → fits o q ≡ true
      → fits o p ≡ true
  -- `create -exist` leaves a set of the same parameters that is there alone.
  pub creates :
      (k : K) (m o : String)
      → supports o ≡ true
      → (see.exists k m ≡ true → see.params k m ≡ canonical o)
      → Becomes see k
          (apply (create m o) k)
          (λ n. m == n || see.exists k n)
          (λ n. if m == n then canonical o else see.params k n)
          (see.member k)
  pub flushes :
      (k : K) (m : String)
      → see.exists k m ≡ true
      → Becomes see k
          (apply (flush m) k)
          (see.exists k)
          (see.params k)
          (λ n e. not (m == n) && see.member k n e)
  pub adds :
      (k : K) (m x : String)
      → see.exists k m ≡ true
      → fits (see.params k m) (λ e. x == e || see.member k m e) ≡ true
      → Becomes see k
          (apply (add m x) k)
          (see.exists k)
          (see.params k)
          (λ n e. (m == n && x == e) || see.member k n e)
  pub swaps :
      (k : K) (a b : String)
      → see.exists k a ≡ true
      → see.exists k b ≡ true
      → see.params k a ≡ see.params k b
      → Becomes see k (apply (swap a b) k) (see.exists k) (see.params k) (λ n e.
        if a == n then see.member k b e else if b == n then see.member k a e else see.member k n e)
  pub destroys :
      (k : K) (m : String)
      → see.exists k m ≡ true
      → see.used k m ≡ false
      → Becomes see k
          (apply (destroy m) k)
          (λ n. not (m == n) && see.exists k n)
          (see.params k)
          (λ n e. not (m == n) && see.member k n e)

-- The entries of a set, as the kernel is asked for them.
abbrev pub holds : Set → String → Bool
holds set e = any (λ x. join " " x == e) set.entries

module _ {K : Type 0} (kernel : Kernel K) where
  -- The lines one after the other.
  unfoldable pub exec : List Line → K → K
  exec [] k = k
  exec (l ∷ ls) k = exec ls (kernel.apply l k)

  pub exec-append : (ls ms : List Line) (k : K) → exec (ls ++ ms) k ≡ exec ms (exec ls k)
  unfolding exec
  exec-append [] ms k = refl
  exec-append (l ∷ ls) ms k = exec-append ls ms (kernel.apply l k)

  -- Two states agree on a set.
  pub record Same (n : String) (k k' : K) : Type 0 where
    pub exists_same : kernel.see.exists k' n ≡ kernel.see.exists k n
    pub member_same : (e : String) → kernel.see.member k' n e ≡ kernel.see.member k n e

  -- A set is there and holds what is asked of it, and nothing else.
  pub record Filled (set : Set) (k : K) : Type 0 where
    pub there : kernel.see.exists k set.name ≡ true
    pub contents : (e : String) → kernel.see.member k set.name e ≡ holds set e
