-- ===== src/Application/Manager.antt =====
-- application.hpp and application.cpp: ApplicationMgr. The application of a debug build for a path
-- that has none is `nullptr`, that of a release build is the abortive one: it is the parameter
-- `fallback` here, and `abortive` what FindByName takes for its name. The logger that belongs to an
-- application is the application.
use da4qi.Base.{
  ℕ, ◌≤◌, List, [], ◌∷◌, Bool, true, false, Bool-cases, not, Option, none, some, Option-cases,
  if◌then◌else◌, Bytes, All, length, ◌≡◌, refl, ap, sym, subst, ◌∙◌, arith, ◌⊎◌, inl, inr,
}
use da4qi.Router.Order.{
  Algorithms, equal, lexicographical_compare, iless_desc, iless_desc-IsStrictWeakOrder,
  iless-istarts_with_self,
}
use da4qi.Router.Map.{
  insert, find, lower_bound, find-head, find-tail, find-later, find-insert, find-insert_known,
  insert-IsSorted, IsSorted,
}
use da4qi.Router.LowerBound.{lower_bound-All, lower_bound-IsSorted, find-lower_bound}
use da4qi.Router.Table.{is_some}
use da4qi.Router.Longest.{NoLonger, behind}

pub record App : Type 0 where
  pub name : Bytes
  pub url_root : Bytes
  pub disabled : Bool
  pub upload_max_size_limit_kb : ℕ

pub record Manager : Type 0 where
  pub mounted : Bool
  pub applications : List (Bytes × App)
  pub app_loggers : List (Bytes × App)

-- The loop of FindByName.
abbrev named : Bytes → List (Bytes × App) → Option App
named name [] = none
named name ((root, app) ∷ m) = if equal app.name name then some app else named name m

module _ (B : Algorithms) (abortive : Bytes → Option App) where
  unfoldable pub find_by_name : Bytes → Manager → Option App
  find_by_name name mgr = elim (named name mgr.applications) [
    | none ↦ abortive name
    | some app ↦ some app
  ]

  unfoldable pub is_exists : Bytes → Manager → Bool
  unfolding find_by_name
  is_exists name mgr = is_some (find_by_name name mgr)

  -- The manager and the value returned.
  unfoldable pub mount_application : App → Manager → Manager × Bool
  unfolding is_exists
  mount_application app mgr =
      if mgr.mounted
      then (mgr, false)
      else if not (is_exists app.name mgr)
      then (
        record mgr {
          app_loggers = insert lexicographical_compare app.name app mgr.app_loggers;
          applications = insert (iless_desc B) app.url_root app mgr.applications;
        },
        true,
      )
      else (mgr, false)

  -- The entry that the loop of FindByURL ends at.
  abbrev first_entry : Bytes → List (Bytes × App) → Option (Bytes × App)
  first_entry url [] = none
  first_entry url ((root, app) ∷ m) =
      if B.istarts_with url root then some (root, app) else first_entry url m

  unfoldable pub find_entry : Bytes → Manager → Option (Bytes × App)
  find_entry url mgr = first_entry url (lower_bound (iless_desc B) url mgr.applications)

  unfoldable pub find_by_url : Option App → Bytes → Manager → Option App
  unfolding find_entry
  find_by_url fallback url mgr = elim (find_entry url mgr) [
    | none ↦ fallback
    | some (root, app) ↦ some app
  ]

  -- The entry of the longest root that begins the path, or none if no root does.
  abbrev pub IsBest : Bytes → List (Bytes × App) → Option (Bytes × App) → Type 0
  IsBest url m none = All (λ e. B.istarts_with url e.0 ≡ false) m
  IsBest url m (some (root, app)) =
      (B.istarts_with url root ≡ true)
      × NoLonger B url (length root) m
      × (find (iless_desc B) root m ≡ some app)

  -- The older application stays.
  abbrev pub kept : App → Option App → Option App
  kept app none = some app
  kept app (some older) = some older

  abbrev with_application : App → Manager → Manager
  with_application app mgr = record mgr {
    app_loggers = insert lexicographical_compare app.name app mgr.app_loggers;
    applications = insert (iless_desc B) app.url_root app mgr.applications;
  }

  mount_application-new :
      (app : App) (mgr : Manager)
      → mgr.mounted ≡ false
      → is_exists app.name mgr ≡ false
      → mount_application app mgr ≡ (with_application app mgr, true)
  unfolding mount_application
  mount_application-new app mgr idle new =
      ap
        (λ b.
          if b
          then (mgr, false)
          else if not (is_exists app.name mgr)
          then (with_application app mgr, true)
          else (mgr, false))
        idle
      ∙ ap (λ b. if not b then (with_application app mgr, true) else (mgr, false)) new

  -- Before the manager is mounted, an application with a new name is at its root afterwards, unless
  -- another one is there already; then the older one stays. The call returns true in both cases,
  -- and the roots stay in order.
  pub mount_application-find :
      (app : App) (mgr : Manager)
      → mgr.mounted ≡ false
      → is_exists app.name mgr ≡ false
      → IsSorted (iless_desc B) mgr.applications
      → let (after, returned) = mount_application app mgr in
        (returned ≡ true)
        × IsSorted (iless_desc B) after.applications
        × (find (iless_desc B) app.url_root after.applications
            ≡ kept app (find (iless_desc B) app.url_root mgr.applications))
  mount_application-find app mgr idle new sorted =
      let desc = iless_desc-IsStrictWeakOrder B in
      subst
        (λ r.
          (r.1 ≡ true)
          × IsSorted (iless_desc B) r.0.applications
          × (find (iless_desc B) app.url_root r.0.applications
              ≡ kept app (find (iless_desc B) app.url_root mgr.applications)))
        (sym (mount_application-new app mgr idle new))
        (
          refl,
          insert-IsSorted (iless_desc B) desc app.url_root app mgr.applications sorted,
          elim (Option-cases (find (iless_desc B) app.url_root mgr.applications)) [
            | inl free ↦
                find-insert (iless_desc B) desc app.url_root app mgr.applications free
                ∙ ap (kept app) (sym free)
            | inr (older, taken) ↦
                find-insert_known (iless_desc B) desc app.url_root app older mgr.applications sorted
                  taken
                ∙ ap (kept app) (sym taken)
          ],
        )

  -- An entry in front that does not begin the path.
  add_worse :
      (url root : Bytes) (app : App) (m : List (Bytes × App))
      → All (λ e. iless_desc B root e.0 ≡ true) m
      → B.istarts_with url root ≡ false
      → (e : Option (Bytes × App)) → IsBest url m e
      → IsBest url ((root, app) ∷ m) e
  add_worse url root app m later other none best = (other, best)
  add_worse url root app m later other (some (r, a)) (begins, longest, found) =
      let desc = iless_desc-IsStrictWeakOrder B in
      (
        begins,
        (inl other, longest),
        find-tail (iless_desc B) desc r root app m
              (inr (find-later (iless_desc B) desc root r a m later found))
            ∙ found,
      )

  first_entry-IsBest :
      (url : Bytes) (m : List (Bytes × App))
      → IsSorted (iless_desc B) m
      → IsBest url m (first_entry url m)
  first_entry-IsBest url [] sorted = tt
  first_entry-IsBest url ((root, app) ∷ m) (later, sorted) =
      elim (Bool-cases (B.istarts_with url root)) [
        | inl begins ↦
            subst
              (λ b.
                IsBest url ((root, app) ∷ m) (if b then some (root, app) else first_entry url m))
              (sym begins)
              (
                begins,
                (inr (omega arith), behind B url root m begins later),
                find-head (iless_desc B) (iless_desc-IsStrictWeakOrder B) root app m,
              )
        | inr other ↦
            subst
              (λ b.
                IsBest url ((root, app) ∷ m) (if b then some (root, app) else first_entry url m))
              (sym other)
              (add_worse url root app m later other (first_entry url m)
                (first_entry-IsBest url m sorted))
      ]

  passed_over : (url root : Bytes) → iless_desc B root url ≡ true → B.istarts_with url root ≡ false
  unfolding iless_desc
  passed_over url root before = ground (arith, iless-istarts_with_self B url root)

  from_bound :
      (url : Bytes) (m : List (Bytes × App))
      → IsSorted (iless_desc B) m
      → (e : Option (Bytes × App)) → IsBest url (lower_bound (iless_desc B) url m) e
      → IsBest url m e
  from_bound url m sorted none best =
      lower_bound-All (iless_desc B) (iless_desc-IsStrictWeakOrder B) url
        (λ e. B.istarts_with url e.0 ≡ false) m (λ j v before. passed_over url j before) best
  from_bound url m sorted (some (root, app)) (begins, longest, found) = (
    begins,
    lower_bound-All (iless_desc B) (iless_desc-IsStrictWeakOrder B) url
        (λ e. (B.istarts_with url e.0 ≡ false) ⊎ (length e.0 ≤ length root)) m
        (λ j v before. inl (passed_over url j before)) longest,
    find-lower_bound (iless_desc B) (iless_desc-IsStrictWeakOrder B) url root app m sorted found,
  )

  -- With the applications in the order of the map, FindByURL takes the application with the longest
  -- root that begins the path, and takes the fallback only if no root begins it.
  pub find_by_url-IsBest :
      (fallback : Option App) (url : Bytes) (mgr : Manager)
      → IsSorted (iless_desc B) mgr.applications
      → (e : Option (Bytes × App)) × IsBest url mgr.applications e
        × (find_by_url fallback url mgr ≡ elim e [ none ↦ fallback | some (root, app) ↦ some app ])
  unfolding find_by_url find_entry
  find_by_url-IsBest fallback url mgr sorted = (
    find_entry url mgr,
    from_bound url mgr.applications sorted (find_entry url mgr) (
        first_entry-IsBest url (lower_bound (iless_desc B) url mgr.applications) (
          lower_bound-IsSorted (iless_desc B) (iless_desc-IsStrictWeakOrder B) url mgr.applications
            sorted)),
    refl,
  )
