-- ===== src/IpSet/Restore/Temporary.antt =====
-- The temporary sets of `buildIPSetRestore`: each is made once, stands empty between two sets, and is
-- no set of another name.
use text.Mathlib.Text.{starts_with}
use text.Mathlib.TextPositions.{starts_with-append}
use kube_router.Prelude.{
  String, ◌≡◌, refl, ◌∙◌, ap, sym, inl, inr, if_true, if_false, if◌then◌else◌, Bool, true, false,
  not, ◌&&◌, ◌||◌, none, some, List, [], ◌∷◌, arith, any, all, ◌==◌, eq_iff, eq_refl, Bool-cases,
  Option-cases,
}
use kube_router.Prelude.Text.{cat}
use kube_router.Dict.{lookup, insert, values, lookup-insert, all-values-insert, any-values-insert}
use kube_router.IpSet.Restore.{Line, create, flush, TmpSets, tmp_set, tmp_name, need_tmp}
use kube_router.IpSet.Restore.Distinct.{distinct, distinct-values-insert, all-weaker}
use kube_router.IpSet.Restore.Kernel.{Kernel, Becomes, exec, Same}

-- A name that the program uses for its temporary sets.
abbrev pub is_tmp : String → Bool
is_tmp n = starts_with n "TMP-"

pub is_tmp-tmp_name : (hash : String → String) (o : String) → is_tmp (tmp_name hash o) ≡ true
unfolding tmp_name
is_tmp-tmp_name hash o = starts_with-append "TMP-" (hash (cat "tmp:" o))

-- A temporary name and another name differ.
pub differ : (t n : String) → is_tmp t ≡ true → is_tmp n ≡ false → (t == n) ≡ false
differ t n p q = elim (Bool-cases (t == n)) [
  | inl e ↦ absurd (let u : t ≡ n = (eq_iff t n).0 e in cc)
  | inr e ↦ e
]

module _ (hash : String → String) {K : Type 0} (kernel : Kernel K) where
  open kernel use {see}

  -- The options of the sets that are restored, by the test `known`, and the parameters of the sets of
  -- each name: ipset understands the options, each has a temporary name of its own, and what has
  -- that name has the parameters of the options.
  pub record IsPlan (known : String → Bool) (params : String → String) : Type 0 where
    pub supported : (o : String) → known o ≡ true → kernel.supports o ≡ true
    pub no_clash :
        (o o' : String)
        → known o ≡ true
        → known o' ≡ true
        → tmp_name hash o ≡ tmp_name hash o'
        → o ≡ o'
    pub tmp_params : (o : String) → known o ≡ true → params (tmp_name hash o) ≡ kernel.canonical o

  module _ (known : String → Bool) (params : String → String) where
    -- Every temporary set of the table is there, and empty; every set has its parameters.
    pub record Ready (tmp_sets : TmpSets) (k : K) : Type 0 where
      pub named : (o t : String) → lookup o tmp_sets ≡ some t → t ≡ tmp_name hash o
      pub there : (o t : String) → lookup o tmp_sets ≡ some t → see.exists k t ≡ true
      pub tmp : all is_tmp (values tmp_sets) ≡ true
      pub empty : (o t e : String) → lookup o tmp_sets ≡ some t → see.member k t e ≡ false
      pub typed : (n : String) → see.exists k n ≡ true → see.params k n ≡ params n
      pub unused : (n : String) → is_tmp n ≡ true → see.used k n ≡ false
      pub found : all (see.exists k) (values tmp_sets) ≡ true
      pub once : distinct (values tmp_sets) ≡ true
      pub of_options :
          (o : String)
          → known o ≡ true
          → any (λ t. t == tmp_name hash o) (values tmp_sets) ≡ true
          → lookup o tmp_sets ≡ some (tmp_name hash o)

    need_tmp-new :
        (options : String) (tmp_sets : TmpSets)
        → lookup options tmp_sets ≡ none
        → need_tmp hash options tmp_sets ≡ (
          create (tmp_name hash options) options ∷ flush (tmp_name hash options) ∷ [],
          insert options (tmp_name hash options) tmp_sets,
        )
    unfolding need_tmp tmp_set
    need_tmp-new options tmp_sets e =
        let z : tmp_set tmp_sets options ≡ "" = rw (e, tmp_set) refl in rw (z, need_tmp) refl

    need_tmp-old :
        (options : String) (tmp_sets : TmpSets)
        → lookup options tmp_sets ≡ some (tmp_name hash options)
        → need_tmp hash options tmp_sets ≡ ([], tmp_sets)
    unfolding need_tmp tmp_set
    need_tmp-old options tmp_sets e =
        let ne = differ (tmp_name hash options) "" (is_tmp-tmp_name hash options) refl in
        ground arith

    -- What `need_tmp` leaves: the temporary set of the options, and all other names as they were.
    pub record Made (options : String) (tmp_sets : TmpSets) (k : K) (out : List Line × TmpSets)
        : Type 0 where
      pub listed : lookup options out.1 ≡ some (tmp_name hash options)
      pub kept : (o t : String) → lookup o tmp_sets ≡ some t → lookup o out.1 ≡ some t
      pub ready : Ready out.1 (exec kernel out.0 k)
      pub frame : (n : String) → is_tmp n ≡ false → Same kernel n k (exec kernel out.0 k)

    module _ (plan : IsPlan known params) (options : String) (is_known : known options ≡ true)
        (tmp_sets : TmpSets) (k : K) (r : Ready tmp_sets k) where
      abbrev made : K
      made = kernel.apply (create (tmp_name hash options) options) k

      abbrev new : K
      new = kernel.apply (flush (tmp_name hash options)) made

      made-Becomes :
          Becomes see k made
            (λ n. tmp_name hash options == n || see.exists k n)
            (λ n. if tmp_name hash options == n then kernel.canonical options else see.params k n)
            (see.member k)
      made-Becomes =
          kernel.creates k (tmp_name hash options) options (plan.supported options is_known)
            (λ h. r.typed (tmp_name hash options) h ∙ plan.tmp_params options is_known)

      new-Becomes :
          Becomes see made new
            (see.exists made)
            (see.params made)
            (λ n e. not (tmp_name hash options == n) && see.member made n e)
      new-Becomes = kernel.flushes made (tmp_name hash options) (
          made-Becomes.exists (tmp_name hash options)
          ∙ ground (arith, eq_refl (tmp_name hash options)))

      new-exists : (n : String) → see.exists new n ≡ (tmp_name hash options == n || see.exists k n)
      new-exists n = new-Becomes.exists n ∙ made-Becomes.exists n

      new-member :
          (n e : String)
          → see.member new n e ≡ (not (tmp_name hash options == n) && see.member k n e)
      new-member n e = ground (arith, new-Becomes.member n e, made-Becomes.member n e)

      new-typed : (n : String) → see.exists new n ≡ true → see.params new n ≡ params n
      new-typed n h = elim (Bool-cases (tmp_name hash options == n)) [
        | inl p ↦
            let q : tmp_name hash options ≡ n = (eq_iff (tmp_name hash options) n).0 p in
            new-Becomes.params n
            ∙ made-Becomes.params n
            ∙ if_true (tmp_name hash options == n) (kernel.canonical options) (see.params k n) p
            ∙ sym (plan.tmp_params options is_known)
            ∙ ap params q
        | inr p ↦
            new-Becomes.params n
            ∙ made-Becomes.params n
            ∙ if_false (tmp_name hash options == n) (kernel.canonical options) (see.params k n) p
            ∙ r.typed n (ground (arith, new-exists n))
      ]

      module _ (e0 : lookup options tmp_sets ≡ none) where
        fresh : any (λ t. t == tmp_name hash options) (values tmp_sets) ≡ false
        fresh = elim (Bool-cases (any (λ t. t == tmp_name hash options) (values tmp_sets))) [
          | inl p ↦ absurd (let q = r.of_options options is_known p in cc)
          | inr p ↦ p
        ]

        new-of_options :
            (o : String)
            → known o ≡ true
            → any
                (λ t. t == tmp_name hash o)
                (values (insert options (tmp_name hash options) tmp_sets))
              ≡ true
            → lookup o (insert options (tmp_name hash options) tmp_sets) ≡ some (tmp_name hash o)
        new-of_options o ko h = elim (Bool-cases (options == o)) [
          | inl p ↦
              let q : options ≡ o = (eq_iff options o).0 p in
              rw (← q) (rw (lookup-insert, eq_refl) refl)
          | inr p ↦ elim (Bool-cases (tmp_name hash options == tmp_name hash o)) [
            | inl s ↦ absurd (
                let q =
                  plan.no_clash options o is_known ko
                    ((eq_iff (tmp_name hash options) (tmp_name hash o)).0 s) in
                let z = (eq_iff options o).1 q in cc)
            | inr s ↦
                let old = r.of_options o ko in
                ground (
                  arith,
                  old,
                  any-values-insert (λ t. t == tmp_name hash o) options (tmp_name hash options)
                      tmp_sets e0,
                  lookup-insert options o (tmp_name hash options) tmp_sets,
                )
          ]
        ]

        new-Ready : Ready (insert options (tmp_name hash options) tmp_sets) new
        new-Ready = record {
          tmp =
              all-values-insert is_tmp options (tmp_name hash options) tmp_sets
                (is_tmp-tmp_name hash options) r.tmp;
          named = λ o t h. ground (
            arith,
            lookup-insert options o (tmp_name hash options) tmp_sets,
            eq_iff options o,
            r.named o t,
          );
          there = λ o t h. ground (
            arith,
            lookup-insert options o (tmp_name hash options) tmp_sets,
            eq_refl t,
            new-exists t,
            r.there o t,
          );
          empty = λ o t e h. ground (
            arith,
            lookup-insert options o (tmp_name hash options) tmp_sets,
            eq_refl t,
            new-member t e,
            r.empty o t e,
          );
          typed = new-typed;
          unused = λ n h. new-Becomes.unused n (made-Becomes.unused n (r.unused n h));
          found =
              all-values-insert (see.exists new) options (tmp_name hash options) tmp_sets
                (new-exists (tmp_name hash options)
                  ∙ ground (arith, eq_refl (tmp_name hash options)))
                (all-weaker (see.exists k) (see.exists new) (values tmp_sets)
                  (λ t h. ground (arith, new-exists t)) r.found);
          once = distinct-values-insert options (tmp_name hash options) tmp_sets e0 fresh r.once;
          of_options = new-of_options;
        }

      new-Same : (n : String) → is_tmp n ≡ false → Same kernel n k new
      new-Same n h =
          let ne = differ (tmp_name hash options) n (is_tmp-tmp_name hash options) h in
          record {
            exists_same = ground (arith, new-exists n);
            member_same = λ e. ground (arith, new-member n e);
          }

      pub need_tmp-Made : Made options tmp_sets k (need_tmp hash options tmp_sets)
      unfolding exec
      need_tmp-Made = elim (Option-cases (lookup options tmp_sets)) [
        | inl e ↦ rw (need_tmp-new options tmp_sets e) (record {
          listed = rw (lookup-insert, eq_refl) refl;
          kept = λ o t h.
              ground
                (arith, lookup-insert options o (tmp_name hash options) tmp_sets, eq_iff options o);
          ready = new-Ready e;
          frame = new-Same;
        })
        | inr (t, e) ↦
            let e' : lookup options tmp_sets ≡ some (tmp_name hash options) =
              cc (r.named options t e) in
            rw (need_tmp-old options tmp_sets e') (record {
              listed = e';
              kept = λ o t h. h;
              ready = r;
              frame = λ n h. record { exists_same = refl; member_same = λ e. refl };
            })
      ]
