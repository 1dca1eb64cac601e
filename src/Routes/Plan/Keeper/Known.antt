-- ===== src/Routes/Plan/Keeper/Known.antt =====
-- What the keeper knows of the routing table, and what an action does to that.
use ket.Common.{
  ◌≡◌, ◌≢◌, refl, sym, subst, ◌∙◌, none, some, lookup, insert, remove, Ascending, insert-Ascending,
  remove-Ascending, lookup-insert_same, lookup-insert_other, lookup-remove_same,
  lookup-remove_other,
}
use ket.Routes.Prefix.{IpPrefix, IpPrefix-discrete, IpPrefix-Key}
use ket.Routes.Plan.{ServerPath, RouteAction, install, uninstall, note_action}
use ket.Routes.Plan.Keeper.{done, refused, half_done, Table, apply_action}

-- Each of Ket's routes in the table is one that the keeper knows.
pub record Known (applied table : Table) : Type 0 where
  pub known : (d : IpPrefix) (p : ServerPath) → lookup d table ≡ some p → lookup d applied ≡ some p
  pub ascending : Ascending table

pub done-note_action :
    (table : Table) (a : RouteAction) → apply_action table a done ≡ note_action table a
unfolding apply_action note_action
done-note_action table (install d p replacing) = refl
done-note_action table (uninstall d p) = refl

pub refused-apply_action : (table : Table) (a : RouteAction) → apply_action table a refused ≡ table
unfolding apply_action
refused-apply_action table (install d p replacing) = refl
refused-apply_action table (uninstall d p) = refl

insert-Known :
    (d : IpPrefix) (p : ServerPath) (applied table : Table)
    → Known applied table
    → Known (insert d p applied) (insert d p table)
insert-Known d p applied table k = record {
  known = λ x q e. elim (IpPrefix-discrete x d) [
    | yes same ↦
        let new = lookup-insert_same d p table in
        let new' = lookup-insert_same d p applied in
        subst (λ y. lookup y (insert d p applied) ≡ some q) (sym same)
          (new' ∙ sym new ∙ subst (λ y. lookup y (insert d p table) ≡ some q) same e)
    | no other ↦
        lookup-insert_other d x p applied other
        ∙ k.known x q (sym (lookup-insert_other d x p table other) ∙ e)
  ];
  ascending = insert-Ascending d p table k.ascending;
}

-- A route that is left when another is out of the table is for another destination, and known.
pub kept_route :
    (d x : IpPrefix) (q : ServerPath) (applied table : Table)
    → Known applied table
    → lookup x (remove d table) ≡ some q
    → (x ≢ d) × (lookup x applied ≡ some q)
kept_route d x q applied table k e = elim (IpPrefix-discrete x d) [
  | yes same ↦
      let gone = lookup-remove_same d table k.ascending in
      absurd (cc (gone, subst (λ y. lookup y (remove d table) ≡ some q) same e))
  | no other ↦ (other, k.known x q (sym (lookup-remove_other d x table other) ∙ e))
]

remove_both-Known :
    (d : IpPrefix) (applied table : Table)
    → Known applied table
    → Known (remove d applied) (remove d table)
remove_both-Known d applied table k = record {
  known = λ x q e.
      let (other, at) = kept_route d x q applied table k e in
      lookup-remove_other d x applied other ∙ at;
  ascending = remove-Ascending d table k.ascending;
}

remove-Known :
    (d : IpPrefix) (applied table : Table) → Known applied table → Known applied (remove d table)
remove-Known d applied table k = record {
  known = λ x q e. (kept_route d x q applied table k e).1;
  ascending = remove-Ascending d table k.ascending;
}

pub done-Known :
    (a : RouteAction) (applied table : Table)
    → Known applied table
    → Known (note_action applied a) (apply_action table a done)
unfolding note_action apply_action
done-Known (install d p replacing) applied table k = insert-Known d p applied table k
done-Known (uninstall d p) applied table k = remove_both-Known d applied table k

pub half_done-Known :
    (a : RouteAction) (applied table : Table)
    → Known applied table
    → Known applied (apply_action table a half_done)
unfolding apply_action
half_done-Known (install d p (some previous)) applied table k = remove-Known d applied table k
half_done-Known (install d p none) applied table k = k
half_done-Known (uninstall d p) applied table k = k
