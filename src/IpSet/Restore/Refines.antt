-- ===== src/IpSet/Restore/Refines.antt =====
-- The script of `buildIPSetRestore`, run by the kernel, leaves every managed set with its desired
-- entries, the sets of others alone, and no temporary set behind.
use kube_router.Prelude.{
  String, ◌≡◌, refl, ◌∙◌, inr, true, false, not, ◌&&◌, none, some, List, [], ◌∷◌, map, arith, any,
  all, ◌==◌, eq_refl, eq_iff, Bool,
}
use kube_router.Prelude.Text.{join, sort_strings, any-sort_strings, all-sort_strings}
use kube_router.Dict.{lookup, keys, values, keys_lem, any-values}
use kube_router.IpSet.{Set}
use kube_router.IpSet.Restore.{destroy, TmpSets, tmp_name, restore_sets, restore_script}
use kube_router.IpSet.Restore.Kernel.{Kernel, exec, exec-append, Same, Filled}
use kube_router.IpSet.Restore.Loop.{
  IsManaged, has_options, restore_sets-LoopDone, Same-Filled, Same-trans,
}
use kube_router.IpSet.Restore.Distinct.{distinct, distinct-sort_strings}
use kube_router.IpSet.Restore.Temporary.{is_tmp, Ready, IsPlan, differ}

module _ {K : Type 0} (kernel : Kernel K) where
  open kernel use {see}

  -- Sets that are there, none named twice, and not used, are destroyed; the others stay.
  record Destroyed (ts : List String) (k k' : K) : Type 0 where
    exists : (n : String) → see.exists k' n ≡ (not (any (λ t. t == n) ts) && see.exists k n)
    member : (n e : String) → see.member k' n e ≡ (not (any (λ t. t == n) ts) && see.member k n e)

  still_there :
      (t : String) (ts : List String) (k k' : K)
      → ((n : String) → see.exists k' n ≡ (not (t == n) && see.exists k n))
      → any (λ u. u == t) ts ≡ false
      → all (see.exists k) ts ≡ true
      → all (see.exists k') ts ≡ true
  still_there t [] k k' h d a = refl
  still_there t (u ∷ ts) k k' h d a =
      ground (arith, h u, still_there t ts k k' h, eq_iff t u, eq_iff u t)

  still_unused :
      (ts : List String) (k k' : K)
      → ((n : String) → see.used k n ≡ false → see.used k' n ≡ false)
      → all (λ t. not (see.used k t)) ts ≡ true
      → all (λ t. not (see.used k' t)) ts ≡ true
  still_unused [] k k' h a = refl
  still_unused (t ∷ ts) k k' h a = ground (arith, h t, still_unused ts k k' h)

  destroy-Destroyed :
      (ts : List String) (k : K)
      → distinct ts ≡ true
      → all (see.exists k) ts ≡ true
      → all (λ t. not (see.used k t)) ts ≡ true
      → Destroyed ts k (exec kernel (map destroy ts) k)
  unfolding exec
  destroy-Destroyed [] k d a u = record { exists = λ n. refl; member = λ n e. refl }
  destroy-Destroyed (t ∷ ts) k d a u =
      let k1 = kernel.apply (destroy t) k in
      let b = kernel.destroys k t (ground arith) (ground arith) in
      let rest =
        destroy-Destroyed ts k1 (ground arith)
          (still_there t ts k k1 b.exists (ground arith) (ground arith))
          (still_unused ts k k1 b.unused (ground arith)) in
      record {
        exists = λ n. ground (arith, rest.exists n, b.exists n);
        member = λ n e. ground (arith, rest.member n e, b.member n e);
      }

all_unused :
    (used : String → Bool) (ts : List String)
    → ((t : String) → is_tmp t ≡ true → used t ≡ false)
    → all is_tmp ts ≡ true
    → all (λ t. not (used t)) ts ≡ true
all_unused used [] h a = refl
all_unused used (t ∷ ts) h a = ground (arith, h t, all_unused used ts h)

not_among :
    (ts : List String) (n : String)
    → all is_tmp ts ≡ true
    → is_tmp n ≡ false
    → any (λ t. t == n) ts ≡ false
not_among [] n h p = refl
not_among (t ∷ ts) n h p = ground (arith, not_among ts n, differ t n)

module _ (hash : String → String) {K : Type 0} (kernel : Kernel K) where
  open kernel use {see}

  -- The lines at the end find all they destroy.
  end-Destroyed :
      {known : String → Bool} {params : String → String} (tmp_sets : TmpSets) (k : K)
      → Ready hash kernel known params tmp_sets k
      → Destroyed kernel
          (sort_strings (values tmp_sets))
          k
          (exec kernel (map destroy (sort_strings (values tmp_sets))) k)
  end-Destroyed tmp_sets k r =
      destroy-Destroyed kernel (sort_strings (values tmp_sets)) k
        (distinct-sort_strings (values tmp_sets) ∙ r.once)
        (all-sort_strings (see.exists k) (values tmp_sets) ∙ r.found)
        (all-sort_strings (λ t. not (see.used k t)) (values tmp_sets)
          ∙ all_unused (see.used k) (values tmp_sets) r.unused r.tmp)

  -- They touch no other name.
  end-Same :
      {known : String → Bool} {params : String → String} (tmp_sets : TmpSets) (n : String) (k : K)
      → Ready hash kernel known params tmp_sets k
      → is_tmp n ≡ false
      → Same kernel n k (exec kernel (map destroy (sort_strings (values tmp_sets))) k)
  end-Same tmp_sets n k r p =
      let out : any (λ t. t == n) (sort_strings (values tmp_sets)) ≡ false =
        any-sort_strings (λ t. t == n) (values tmp_sets) ∙ not_among (values tmp_sets) n r.tmp p in
      let d = end-Destroyed tmp_sets k r in
      record {
        exists_same = ground (arith, d.exists n, out);
        member_same = λ e. ground (arith, d.member n e, out);
      }

  -- What the host has before: every set that is there has the parameters of its name, and no rule and no
  -- set refers to a temporary set.
  pub record IsHost (params : String → String) (k : K) : Type 0 where
    pub typed : (n : String) → see.exists k n ≡ true → see.params k n ≡ params n
    pub unused : (n : String) → is_tmp n ≡ true → see.used k n ≡ false

  start :
      (known : String → Bool) (params : String → String) (k : K)
      → IsHost params k
      → Ready hash kernel known params [] k
  unfolding lookup values
  start known params k host = record {
    named = λ o t h. cc;
    there = λ o t h. cc;
    tmp = refl;
    empty = λ o t e h. cc;
    typed = host.typed;
    unused = host.unused;
    found = refl;
    once = refl;
    of_options = λ o ko h. absurd (cc);
  }

  -- What a restore promises of a table of sets, from the state `k` to the state `k'`.
  pub record Restored (sets : List (String × Set)) (k k' : K) : Type 0 where
    pub filled : (n : String) (set : Set) → lookup n sets ≡ some set → Filled kernel set k'
    pub untouched : (n : String) → is_tmp n ≡ false → lookup n sets ≡ none → Same kernel n k k'
    pub cleaned :
        (n : String) (set : Set)
        → lookup n sets ≡ some set
        → see.exists k' (tmp_name hash (join " " set.options)) ≡ false

  -- The script of a table of sets, run line by line, leaves each set of the table there with exactly its
  -- entries, whatever it held before, leaves every other set as it was unless it has the name of a
  -- temporary set, and leaves no temporary set of the run. This holds if the sets stand under their own
  -- names, none of them that of a temporary set; if ipset understands their options and has room for
  -- their entries; if different options have different temporary names; if what the host has under the
  -- names of the sets and of their temporary sets has the parameters of their options; and if nothing
  -- refers to a temporary set.
  pub restore_script-Restored :
      (params : String → String) (sets : List (String × Set)) (k : K)
      → IsManaged hash kernel params sets
      → IsPlan hash kernel (has_options sets) params
      → IsHost params k
      → Restored sets k (exec kernel (restore_script hash sets) k)
  unfolding restore_script
  restore_script-Restored params sets k managed plan host =
      let names = sort_strings (keys sets) in
      let (lines, tmp_sets) = restore_sets hash sets names [] in
      let d =
        restore_sets-LoopDone hash kernel params sets managed plan names [] k
          (start (has_options sets) params k host) in
      let k' = exec kernel lines k in
      let listed = λ (n : String). any-sort_strings (λ j. j == n) (keys sets) in
      rw exec-append (record {
        filled = λ n set h.
            Same-Filled hash kernel set k' _
              (end-Same tmp_sets set.name k' d.ready
                (rw (managed.same_name n set h) (managed.no_tmp n set h)))
              (d.filled n set (listed n ∙ ground (arith, keys_lem n sets)) h);
        untouched = λ n p h.
            Same-trans hash kernel (d.others n p (inr h)) (end-Same tmp_sets n k' d.ready p);
        cleaned = λ n set h.
            let o = join " " set.options in
            let found = d.listed n set (listed n ∙ ground (arith, keys_lem n sets)) h in
            let gone : any (λ t. t == tmp_name hash o) (sort_strings (values tmp_sets)) ≡ true =
              any-sort_strings (λ t. t == tmp_name hash o) (values tmp_sets)
              ∙ any-values (λ t. t == tmp_name hash o) o (tmp_name hash o) tmp_sets found
                  (eq_refl (tmp_name hash o)) in
            let e = (end-Destroyed tmp_sets k' d.ready).exists (tmp_name hash o) in
            ground (arith, e, gone);
      })
