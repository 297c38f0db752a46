-- ===== src/IpSet/Restore/Fill.antt =====
-- The lines of `buildIPSetRestore` that fill a temporary set and swap it with a set, run by the kernel.
use kube_router.Prelude.{
  String, ◌≡◌, refl, ◌∙◌, ap, sym, if_true, if_false, any, inl, inr, Bool-cases, Bool, true, false,
  not, ◌&&◌, ◌||◌, List, [], ◌∷◌, arith, if◌then◌else◌, ◌==◌, eq_iff, eq_refl,
}
use kube_router.Prelude.Text.{join}
use kube_router.IpSet.{Set}
use kube_router.IpSet.Restore.{create, swap, flush, add, add_entries, fill_and_swap}
use kube_router.IpSet.Restore.Kernel.{Kernel, Becomes, exec, exec-append, holds}

module _ {K : Type 0} (kernel : Kernel K) where
  open kernel use {see}

  -- The lines that fill a set which is there and can hold all the entries.
  add_entries-Becomes :
      (t : String) (es : List (List String)) (whole : String → Bool) (k : K)
      → see.exists k t ≡ true
      → kernel.fits (see.params k t) whole ≡ true
      → ((e : String) → any (λ x. join " " x == e) es ≡ true → whole e ≡ true)
      → ((e : String) → see.member k t e ≡ true → whole e ≡ true)
      → Becomes see k
          (exec kernel (add_entries t es) k)
          (see.exists k)
          (see.params k)
          (λ n e. (t == n && any (λ x. join " " x == e) es) || see.member k n e)
  unfolding exec add_entries
  add_entries-Becomes t [] whole k h f sub held = record {
    exists = λ n. refl;
    params = λ n. refl;
    member = λ n e. ground arith;
    unused = λ n u. u;
  }
  add_entries-Becomes t (x ∷ es) whole k h f sub held =
      let j = join " " x in
      let b = kernel.adds k t j h (
        kernel.fits-fewer (see.params k t) (λ e. j == e || see.member k t e) whole
          (λ e p. ground (arith, sub e, held e)) f) in
      let rest =
        add_entries-Becomes t es whole (kernel.apply (add t j) k) (b.exists t ∙ h)
          (ap (λ o. kernel.fits o whole) (b.params t) ∙ f) (λ e p. ground (arith, sub e))
          (λ e p. ground (arith, b.member t e, sub e, held e)) in
      record {
        exists = λ n. rest.exists n ∙ b.exists n;
        params = λ n. rest.params n ∙ b.params n;
        member = λ n e. ground (arith, rest.member n e, b.member n e);
        unused = λ n u. rest.unused n (b.unused n u);
      }

  -- What a set needs of the host: its name is for sets of its options' parameters, and there is room
  -- for its entries.
  pub record IsSound (params : String → String) (set : Set) : Type 0 where
    pub parameters : params set.name ≡ kernel.canonical (join " " set.options)
    pub room : kernel.fits (kernel.canonical (join " " set.options)) (holds set) ≡ true

  -- The state after `fill_and_swap`, in terms of the one before.
  module _ (t : String) (set : Set) (k : K) (params : String → String)
      (typed : (n : String) → see.exists k n ≡ true → see.params k n ≡ params n)
      (same : params t ≡ kernel.canonical (join " " set.options)) (sound : IsSound params set)
      (supported : kernel.supports (join " " set.options) ≡ true) (there : see.exists k t ≡ true)
      (empty : (e : String) → see.member k t e ≡ false) (other : (set.name == t) ≡ false) where
    abbrev o : String
    o = join " " set.options

    abbrev k1 : K
    k1 = exec kernel (add_entries t set.entries) k

    abbrev k2 : K
    k2 = kernel.apply (create set.name o) k1

    abbrev k3 : K
    k3 = kernel.apply (swap t set.name) k2

    k1-Becomes :
        Becomes see k k1
          (see.exists k)
          (see.params k)
          (λ n e. (t == n && any (λ x. join " " x == e) set.entries) || see.member k n e)
    k1-Becomes =
        add_entries-Becomes t set.entries (holds set) k there
          (ap (λ p. kernel.fits p (holds set)) (typed t there ∙ same) ∙ sound.room) (λ e p. p)
          (λ e p. absurd (let q = empty e in cc))

    k2-Becomes :
        Becomes see k1 k2
          (λ n. set.name == n || see.exists k1 n)
          (λ n. if set.name == n then kernel.canonical o else see.params k1 n)
          (see.member k1)
    k2-Becomes = kernel.creates k1 set.name o supported (λ h.
        k1-Becomes.params set.name
        ∙ typed set.name (sym (k1-Becomes.exists set.name) ∙ h)
        ∙ sound.parameters)

    t-there : see.exists k2 t ≡ true
    t-there = ground (arith, k2-Becomes.exists t, k1-Becomes.exists t)

    k3-Becomes : Becomes see k2 k3 (see.exists k2) (see.params k2) (λ n e.
        if t == n
        then see.member k2 set.name e
        else if set.name == n
        then see.member k2 t e
        else see.member k2 n e)
    k3-Becomes =
        kernel.swaps k2 t set.name t-there
          (k2-Becomes.exists set.name ∙ ground (arith, eq_refl set.name))
          (k2-Becomes.params t
            ∙ if_false (set.name == t) (kernel.canonical o) (see.params k1 t) other
            ∙ k1-Becomes.params t
            ∙ typed t there
            ∙ same
            ∙ sym (
                k2-Becomes.params set.name
                ∙ if_true (set.name == set.name) (kernel.canonical o) (see.params k1 set.name)
                    (eq_refl set.name)))

    k4-Becomes :
        Becomes see k3
          (kernel.apply (flush t) k3)
          (see.exists k3)
          (see.params k3)
          (λ n e. not (t == n) && see.member k3 n e)
    k4-Becomes = kernel.flushes k3 t (k3-Becomes.exists t ∙ t-there)

    pub fill_and_swap-exists :
        (n : String)
        → see.exists (exec kernel (fill_and_swap t set) k) n ≡ (set.name == n || see.exists k n)
    unfolding fill_and_swap exec
    fill_and_swap-exists n = rw exec-append (
        ground (
          arith,
          k4-Becomes.exists n,
          k3-Becomes.exists n,
          k2-Becomes.exists n,
          k1-Becomes.exists n,
        ))

    pub fill_and_swap-unused :
        (n : String)
        → see.used k n ≡ false
        → see.used (exec kernel (fill_and_swap t set) k) n ≡ false
    unfolding fill_and_swap exec
    fill_and_swap-unused n u =
        rw exec-append
          (k4-Becomes.unused n (k3-Becomes.unused n (k2-Becomes.unused n (k1-Becomes.unused n u))))

    pub fill_and_swap-typed :
        (n : String)
        → see.exists (exec kernel (fill_and_swap t set) k) n ≡ true
        → see.params (exec kernel (fill_and_swap t set) k) n ≡ params n
    unfolding fill_and_swap exec
    fill_and_swap-typed n h =
        let found = sym (fill_and_swap-exists n) ∙ h in
        rw exec-append (
          k4-Becomes.params n
          ∙ k3-Becomes.params n
          ∙ k2-Becomes.params n
          ∙ elim (Bool-cases (set.name == n)) [
            | inl p ↦
                if_true (set.name == n) (kernel.canonical o) (see.params k1 n) p
                ∙ sym sound.parameters
                ∙ ap params ((eq_iff set.name n).0 p)
            | inr p ↦
                if_false (set.name == n) (kernel.canonical o) (see.params k1 n) p
                ∙ k1-Becomes.params n
                ∙ typed n (ground (arith, found))
          ])

    pub fill_and_swap-member :
        (n e : String)
        → see.member (exec kernel (fill_and_swap t set) k) n e
          ≡ (not (t == n) && (if set.name == n then holds set e else see.member k n e))
    unfolding fill_and_swap exec
    fill_and_swap-member n e = rw exec-append (
        ground (
          arith,
          k4-Becomes.member n e,
          k3-Becomes.member n e,
          k2-Becomes.member n e,
          k2-Becomes.member t e,
          k1-Becomes.member n e,
          k1-Becomes.member t e,
          empty e,
          eq_refl t,
        ))
