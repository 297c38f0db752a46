-- ===== src/IpSet/Restore/Round.antt =====
-- One round of `buildIPSetRestore`: the lines for one set, run by the kernel.
use kube_router.Prelude.{
  String, ◌≡◌, Bool, true, false, some, List, ◌++◌, arith, ◌==◌, eq_iff, eq_refl,
}
use kube_router.Prelude.Text.{join}
use kube_router.Dict.{lookup, values}
use kube_router.IpSet.{Set}
use kube_router.IpSet.Restore.{
  Line, TmpSets, tmp_set, tmp_name, need_tmp, fill_and_swap, restore_set,
}
use kube_router.IpSet.Restore.Kernel.{Kernel, exec, exec-append, Same, Filled}
use kube_router.IpSet.Restore.Distinct.{all-weaker}
use kube_router.IpSet.Restore.Fill.{
  IsSound, fill_and_swap-exists, fill_and_swap-unused, fill_and_swap-typed, fill_and_swap-member,
}
use kube_router.IpSet.Restore.Temporary.{
  is_tmp, Ready, Made, is_tmp-tmp_name, differ, IsPlan, need_tmp-Made,
}

tmp_set_of_listed :
    (tmp_sets : TmpSets) {t : String} (o : String)
    → lookup o tmp_sets ≡ some t
    → tmp_set tmp_sets o ≡ t
unfolding tmp_set
tmp_set_of_listed tmp_sets o h = ground arith

module _ (hash : String → String) {K : Type 0} (kernel : Kernel K) where
  open kernel use {see}

  module _ (known : String → Bool) (params : String → String) where
    pub record SetDone (set : Set) (tmp_sets : TmpSets) (k : K) (out : List Line × TmpSets)
        : Type 0 where
      pub listed : lookup (join " " set.options) out.1 ≡ some (tmp_name hash (join " " set.options))
      pub kept : (o t : String) → lookup o tmp_sets ≡ some t → lookup o out.1 ≡ some t
      pub ready : Ready hash kernel known params out.1 (exec kernel out.0 k)
      pub filled : Filled kernel set (exec kernel out.0 k)
      pub others :
          (n : String)
          → is_tmp n ≡ false
          → (set.name == n) ≡ false
          → Same kernel n k (exec kernel out.0 k)

    module _ (plan : IsPlan hash kernel known params) where
      -- From the state in which the temporary set is ready.
      fill_and_swap-SetDone :
          (set : Set) (tmp_sets : TmpSets) (k : K) (made : List Line) (tmp_sets' : TmpSets)
          → is_tmp set.name ≡ false
          → known (join " " set.options) ≡ true
          → IsSound kernel params set
          → Made hash kernel known params (join " " set.options) tmp_sets k (made, tmp_sets')
          → SetDone set tmp_sets k
              (made ++ fill_and_swap (tmp_name hash (join " " set.options)) set, tmp_sets')
      fill_and_swap-SetDone set tmp_sets k made tmp_sets' h ko sound m =
          let o = join " " set.options in
          let t = tmp_name hash o in
          let k' = exec kernel made k in
          let there : see.exists k' t ≡ true = m.ready.there o t m.listed in
          let other : (t == set.name) ≡ false = differ t set.name (is_tmp-tmp_name hash o) h in
          let other' : (set.name == t) ≡ false =
            ground (arith, eq_iff t set.name, eq_iff set.name t) in
          let tp = plan.tmp_params o ko in
          let sup = plan.supported o ko in
          let em = λ (e : String). m.ready.empty o t e m.listed in
          let ty = m.ready.typed in
          let ex = fill_and_swap-exists kernel t set k' params ty tp sound sup there em other' in
          let me = fill_and_swap-member kernel t set k' params ty tp sound sup there em other' in
          record {
            listed = m.listed;
            kept = m.kept;
            ready = rw exec-append (record {
              named = m.ready.named;
              tmp = m.ready.tmp;
              there = λ p u q. ground (arith, ex u, m.ready.there p u);
              empty = λ p u e q.
                  let tu : is_tmp u ≡ true = rw (m.ready.named p u q) (is_tmp-tmp_name hash p) in
                  ground (
                    arith,
                    me u e,
                    m.ready.empty p u e,
                    differ u set.name tu h,
                    eq_iff set.name u,
                    eq_refl u,
                  );
              typed = fill_and_swap-typed kernel t set k' params ty tp sound sup there em other';
              unused = λ n u.
                  fill_and_swap-unused kernel t set k' params ty tp sound sup there em other' n
                    (m.ready.unused n u);
              found =
                  all-weaker (see.exists k') _ (values tmp_sets') (λ n p. ground (arith, ex n))
                    m.ready.found;
              once = m.ready.once;
              of_options = m.ready.of_options;
            });
            filled = rw exec-append (record {
              there = ground (arith, ex set.name, eq_refl set.name);
              contents = λ e. ground (arith, me set.name e, eq_refl set.name);
            });
            others = λ n p q. rw exec-append (record {
              exists_same = ground (arith, ex n, (m.frame n p).exists_same);
              member_same = λ e. ground (
                arith,
                me n e,
                (m.frame n p).member_same e,
                differ t n (is_tmp-tmp_name hash o) p,
              );
            });
          }

      pub restore_set-SetDone :
          (set : Set) (tmp_sets : TmpSets) (k : K)
          → is_tmp set.name ≡ false
          → known (join " " set.options) ≡ true
          → IsSound kernel params set
          → Ready hash kernel known params tmp_sets k
          → SetDone set tmp_sets k (restore_set hash set tmp_sets)
      unfolding restore_set
      restore_set-SetDone set tmp_sets k h ko sound r =
          let o = join " " set.options in
          let (made, tmp_sets') = need_tmp hash o tmp_sets in
          let m = need_tmp-Made hash kernel known params plan o ko tmp_sets k r in
          let z : tmp_set tmp_sets' o ≡ tmp_name hash o = tmp_set_of_listed tmp_sets' o m.listed in
          rw z (fill_and_swap-SetDone set tmp_sets k made tmp_sets' h ko sound m)
