-- ===== src/IpSet/Restore/Loop.antt =====
-- The loop of `buildIPSetRestore` over the names of the sets, run by the kernel.
use kube_router.Prelude.{
  String, ◌≡◌, refl, Bool, eq_refl, ◌⊎◌, inl, inr, true, false, none, some, List, [], ◌∷◌, ◌++◌,
  arith, any, ◌==◌, eq_iff, Bool-cases, Option-cases,
}
use kube_router.Prelude.Text.{join}
use kube_router.Dict.{lookup, values, any-values}
use kube_router.IpSet.{Set}
use kube_router.IpSet.Restore.{Line, TmpSets, tmp_name, restore_set, restore_named, restore_sets}
use kube_router.IpSet.Restore.Fill.{IsSound}
use kube_router.IpSet.Restore.Kernel.{Kernel, exec, exec-append, Same, Filled}
use kube_router.IpSet.Restore.Round.{SetDone, restore_set-SetDone}
use kube_router.IpSet.Restore.Temporary.{is_tmp, Ready, IsPlan}

-- The options of the sets of a table.
abbrev pub has_options : List (String × Set) → String → Bool
has_options sets o = any (λ (set : Set). join " " set.options == o) (values sets)

module _ (hash : String → String) {K : Type 0} (kernel : Kernel K) where
  -- The table of sets is under its sets' own names, none has the name of a temporary set, and the host
  -- can have each of them.
  pub record IsManaged (params : String → String) (sets : List (String × Set)) : Type 0 where
    pub same_name : (n : String) (set : Set) → lookup n sets ≡ some set → set.name ≡ n
    pub no_tmp : (n : String) (set : Set) → lookup n sets ≡ some set → is_tmp n ≡ false
    pub sound : (n : String) (set : Set) → lookup n sets ≡ some set → IsSound kernel params set

  -- What the loop over `names` has done: those sets are filled, all others are as they were.
  pub record LoopDone (params : String → String) (sets : List (String × Set)) (names : List String)
      (tmp_sets : TmpSets) (k : K) (out : List Line × TmpSets) : Type 0 where
    pub listed :
        (n : String) (set : Set)
        → any (λ m. m == n) names ≡ true
        → lookup n sets ≡ some set
        → lookup (join " " set.options) out.1 ≡ some (tmp_name hash (join " " set.options))
    pub kept : (o t : String) → lookup o tmp_sets ≡ some t → lookup o out.1 ≡ some t
    pub ready : Ready hash kernel (has_options sets) params out.1 (exec kernel out.0 k)
    pub filled :
        (n : String) (set : Set)
        → any (λ m. m == n) names ≡ true
        → lookup n sets ≡ some set
        → Filled kernel set (exec kernel out.0 k)
    pub others :
        (n : String)
        → is_tmp n ≡ false
        → (any (λ m. m == n) names ≡ false) ⊎ (lookup n sets ≡ none)
        → Same kernel n k (exec kernel out.0 k)

  pub Same-Filled :
      (set : Set) (k k' : K)
      → Same kernel set.name k k'
      → Filled kernel set k
      → Filled kernel set k'
  Same-Filled set k k' s f = record {
    there = cc (s.exists_same, f.there);
    contents = λ e. cc (s.member_same e, f.contents e);
  }

  pub Same-trans :
      {n : String} {a b c : K} → Same kernel n a b → Same kernel n b c → Same kernel n a c
  Same-trans s t = record {
    exists_same = cc (s.exists_same, t.exists_same);
    member_same = λ e. cc (s.member_same e, t.member_same e);
  }

  module _ (params : String → String) (sets : List (String × Set)) (managed : IsManaged params sets)
      (plan : IsPlan hash kernel (has_options sets) params) where
    same :
        (n m : String) (set set' : Set)
        → lookup n sets ≡ some set
        → any (λ j. j == m) (n ∷ []) ≡ true
        → lookup m sets ≡ some set'
        → set' ≡ set
    same n m set set' e p q = ground (arith, eq_iff n m)

    done :
        (n : String) (set : Set) (tmp_sets : TmpSets) (k : K)
        → lookup n sets ≡ some set
        → Ready hash kernel (has_options sets) params tmp_sets k
        → SetDone hash kernel
            (has_options sets)
            params
            set
            tmp_sets
            k
            (restore_set hash set tmp_sets)
    done n set tmp_sets k e r =
        restore_set-SetDone hash kernel (has_options sets) params plan set tmp_sets k
          (rw (managed.same_name n set e) (managed.no_tmp n set e))
          (any-values (λ (s : Set). join " " s.options == join " " set.options) n set sets e
            (eq_refl (join " " set.options)))
          (managed.sound n set e) r

    one_set :
        (n : String) (set : Set) (tmp_sets : TmpSets) (k : K) {out : List Line × TmpSets}
        → lookup n sets ≡ some set
        → SetDone hash kernel (has_options sets) params set tmp_sets k out
        → LoopDone params sets (n ∷ []) tmp_sets k out
    one_set n set tmp_sets k e d = record {
      listed = λ m set' p q. rw (same n m set set' e p q) d.listed;
      kept = d.kept;
      ready = d.ready;
      filled = λ m set' p q. rw (same n m set set' e p q) d.filled;
      others = λ m p q. d.others m p (elim q [
        | inl y ↦ rw (managed.same_name n set e) (ground arith)
        | inr y ↦ rw (managed.same_name n set e) (ground (arith, eq_iff n m))
      ]);
    }

    restore_named-LoopDone :
        (n : String) (tmp_sets : TmpSets) (k : K)
        → Ready hash kernel (has_options sets) params tmp_sets k
        → LoopDone params sets (n ∷ []) tmp_sets k (restore_named hash sets n tmp_sets)
    unfolding restore_named exec
    restore_named-LoopDone n tmp_sets k r = elim (Option-cases (lookup n sets)) [
      | inl e ↦
          rw (e, restore_named)
            (record {
              listed = λ m set p q. ground (arith, eq_iff n m);
              kept = λ o t h. h;
              ready = r;
              filled = λ m set p q. absurd (ground (arith, eq_iff n m));
              others = λ m p q. record { exists_same = refl; member_same = λ e. refl };
            })
      | inr (set, e) ↦
          rw (e, restore_named) (one_set n set tmp_sets k e (done n set tmp_sets k e r))
    ]

    seq-LoopDone :
        (n : String) (ns : List String) (tmp_sets t1 t2 : TmpSets) (l1 l2 : List Line) (k : K)
        → LoopDone params sets (n ∷ []) tmp_sets k (l1, t1)
        → LoopDone params sets ns t1 (exec kernel l1 k) (l2, t2)
        → LoopDone params sets (n ∷ ns) tmp_sets k (l1 ++ l2, t2)
    seq-LoopDone n ns tmp_sets t1 t2 l1 l2 k a b = record {
      listed = λ m set p q. elim (Bool-cases (any (λ j. j == m) ns)) [
        | inl y ↦ b.listed m set y q
        | inr y ↦ b.kept _ _ (a.listed m set (ground arith) q)
      ];
      kept = λ o t h. b.kept o t (a.kept o t h);
      ready = rw exec-append b.ready;
      filled = λ m set p q. rw exec-append (elim (Bool-cases (any (λ j. j == m) ns)) [
        | inl y ↦ b.filled m set y q
        | inr y ↦
            Same-Filled set (exec kernel l1 k) (exec kernel l2 (exec kernel l1 k))
              (rw (managed.same_name m set q) (b.others m (managed.no_tmp m set q) (inl y)))
              (a.filled m set (ground arith) q)
      ]);
      others = λ m p q. rw exec-append (
          Same-trans (a.others m p (elim q [ inl y ↦ inl (ground arith) | inr y ↦ inr y ]))
            (b.others m p (elim q [ inl y ↦ inl (ground arith) | inr y ↦ inr y ])));
    }

    pub restore_sets-LoopDone :
        (ns : List String) (tmp_sets : TmpSets) (k : K)
        → Ready hash kernel (has_options sets) params tmp_sets k
        → LoopDone params sets ns tmp_sets k (restore_sets hash sets ns tmp_sets)
    unfolding restore_sets exec
    restore_sets-LoopDone [] tmp_sets k r = record {
      listed = λ m set p q. cc;
      kept = λ o t h. h;
      ready = r;
      filled = λ m set p q. absurd (cc);
      others = λ m p q. record { exists_same = refl; member_same = λ e. refl };
    }
    restore_sets-LoopDone (n ∷ ns) tmp_sets k r =
        let a = restore_named-LoopDone n tmp_sets k r in
        let (l1, t1) = restore_named hash sets n tmp_sets in
        let (l2, t2) = restore_sets hash sets ns t1 in
        seq-LoopDone n ns tmp_sets t1 t2 l1 l2 k a
          (restore_sets-LoopDone ns t1 (exec kernel l1 k) a.ready)
