-- ===== src/Engine/Workdir/Laws.antt =====
-- The folders that the dealer gives to the identifiers of the workers.
use mathlib.Core.Path.{subst}
use gremlins.Prelude.{
  ◌≡◌, refl, sym, ap, ◌∙◌, List, [], ◌∷◌, Option, none, some, Text, text_eq, text_eq_iff,
  text_eq_refl, if◌then◌else◌, arith, ◌⊎◌, inl, inr, Option-cases,
}
use gremlins.Prelude.GoMap.{lookup-insert}
use gremlins.FilePath.{join, rel}
use gremlins.Engine.Workdir.{
  Fs, Visit, CachedDealer, from_cache, set_cache, copy_path, copy_to, copy_all, get_new, get,
}

-- The folders that the file system has. A temporary folder is a new one, and none of the calls
-- that copy removes a folder.
pub record FsLaws (fs : Fs) : Type 1 where
  pub exists : Text → fs.Disk → Type 0
  pub mkdir_temp_new :
      (base dst : Text) (d : fs.Disk) → (fs.mkdir_temp base d).0 ≡ some dst → ¬ exists dst d
  pub mkdir_temp_exists :
      (base dst : Text) (d : fs.Disk)
      → (fs.mkdir_temp base d).0 ≡ some dst
      → exists dst (fs.mkdir_temp base d).1
  pub mkdir_temp_keeps :
      (base p : Text) (d : fs.Disk) → exists p d → exists p (fs.mkdir_temp base d).1
  pub mkdir_keeps : (dst p : Text) (d : fs.Disk) → exists p d → exists p (fs.mkdir dst d).1
  pub open_keeps : (dst p : Text) (d : fs.Disk) → exists p d → exists p (fs.open_target dst d).1
  pub copy_keeps : (src dst p : Text) (d : fs.Disk) → exists p d → exists p (fs.io_copy src dst d).1

module _ (fs : Fs) where
  -- How a `Get` that made a folder went.
  get_new_went :
      (idf dst : Text) (cd cd' : CachedDealer) (d d' : fs.Disk)
      → get_new fs idf cd d ≡ (some dst, cd', d')
      → (cd' ≡ set_cache cd idf dst)
        × ((fs.mkdir_temp cd.work_dir d).0 ≡ some dst)
        × (d'
            ≡ (copy_all fs cd dst
                (fs.walk cd.src_dir (fs.mkdir_temp cd.work_dir d).1)
                (fs.mkdir_temp cd.work_dir d).1).1)
  unfolding get_new
  get_new_went idf dst cd cd' d d' h = (ground arith, ground arith, ground arith)

  pub from_cache-set_cache :
      (cd : CachedDealer) (idf idf' dst : Text)
      → from_cache (set_cache cd idf dst) idf'
        ≡ (if text_eq idf idf' then some dst else from_cache cd idf')
  unfolding from_cache set_cache
  from_cache-set_cache cd idf idf' dst = lookup-insert idf idf' dst cd.cache

  set_cache_found :
      (cd : CachedDealer) (idf i dst p : Text)
      → from_cache (set_cache cd idf dst) i ≡ some p
      → ((idf ≡ i) × (dst ≡ p)) ⊎ (from_cache cd i ≡ some p)
  set_cache_found cd idf i dst p h =
      ground (arith, from_cache-set_cache cd idf i dst, text_eq_iff idf i)

  -- Once `Get` has given a folder for an identifier, it gives the same folder for it again, and
  -- changes neither the disk nor the cache.
  pub get_twice :
      (idf dst : Text) (cd cd' : CachedDealer) (d d' e : fs.Disk)
      → get fs idf cd d ≡ (some dst, cd', d')
      → get fs idf cd' e ≡ (some dst, cd', e)
  unfolding get
  get_twice idf dst cd cd' d d' e h = elim (Option-cases (from_cache cd idf)) [
    | inl missing ↦
        let (set, made, copied) = get_new_went idf dst cd cd' d d' (rw (missing, get) at h) in
        let found : from_cache cd' idf ≡ some dst =
          ap (λ (c : CachedDealer). from_cache c idf) set
          ∙ rw (from_cache-set_cache cd idf idf dst, text_eq_refl idf) refl in
        rw (found, get)
    | inr (folder, cached) ↦ ground arith
  ]

  get_new_failed :
      (idf : Text) (cd cd' : CachedDealer) (d d' : fs.Disk)
      → get_new fs idf cd d ≡ (none, cd', d')
      → cd' ≡ cd
  unfolding get_new
  get_new_failed idf cd cd' d d' h = ground arith

  module _ (laws : FsLaws fs) where
    open laws use {exists}

    copy_path-keeps :
        (src dst p : Text) (v : Visit) (d : fs.Disk)
        → exists p d
        → exists p (copy_path fs src dst v.mode d).1
    unfolding copy_path
    copy_path-keeps src dst p v d h = ground (
      arith,
      laws.mkdir_keeps dst p d,
      laws.open_keeps dst p d,
      laws.copy_keeps src dst p (fs.open_target dst d).1,
    )

    pub copy_to-keeps :
        (cd : CachedDealer) (dst p : Text) (v : Visit) (d : fs.Disk)
        → exists p d
        → exists p (copy_to fs cd dst v d).1
    unfolding copy_to
    copy_to-keeps cd dst p v d h = elim (Option-cases (rel cd.src_dir v.src_path)) [
      | inl outside ↦ ground arith
      | inr (path, inside) ↦ ground (arith, copy_path-keeps v.src_path (join dst path) p v d h)
    ]

    copy_all-keeps :
        (cd : CachedDealer) (dst p : Text) (vs : List Visit) (d : fs.Disk)
        → exists p d
        → exists p (copy_all fs cd dst vs d).1
    unfolding copy_all
    copy_all-keeps cd dst p [] d h = h
    copy_all-keeps cd dst p (v ∷ vs) d h =
        ground (
          arith,
          copy_to-keeps cd dst p v d h,
          copy_all-keeps cd dst p vs (copy_to fs cd dst v d).1,
        )

    get_new-keeps :
        (idf p : Text) (cd : CachedDealer) (d : fs.Disk)
        → exists p d
        → exists p (get_new fs idf cd d).2
    unfolding get_new
    get_new-keeps idf p cd d h = elim (Option-cases (fs.mkdir_temp cd.work_dir d).0) [
      | inl failed ↦ ground (arith, laws.mkdir_temp_keeps cd.work_dir p d h)
      | inr (dst, made) ↦
          let d₁ = (fs.mkdir_temp cd.work_dir d).1 in
          ground (
            arith,
            copy_all-keeps cd dst p (fs.walk cd.src_dir d₁) d₁
                (laws.mkdir_temp_keeps cd.work_dir p d h),
          )
    ]

    -- What holds of a cache: its folders exist, and each belongs to one identifier.
    pub record Inv (cd : CachedDealer) (d : fs.Disk) : Type 0 where
      pub folders_exist : (idf dst : Text) → from_cache cd idf ≡ some dst → exists dst d
      pub one_owner :
          (idf idf' dst : Text)
          → from_cache cd idf ≡ some dst
          → from_cache cd idf' ≡ some dst
          → idf ≡ idf'

    set_cache-Inv :
        (idf dst : Text) (cd : CachedDealer) (d d' : fs.Disk)
        → Inv cd d
        → ¬ exists dst d
        → exists dst d'
        → ((p : Text) → exists p d → exists p d')
        → Inv (set_cache cd idf dst) d'
    set_cache-Inv idf dst cd d d' v fresh made keeps = record {
      folders_exist = there_is;
      one_owner = owner;
    }
      where
        there_is : (i p : Text) → from_cache (set_cache cd idf dst) i ≡ some p → exists p d'
        there_is i p h = elim (set_cache_found cd idf i dst p h) [
          | inl (_, e) ↦ subst (λ q. exists q d') e made
          | inr old ↦ keeps p (v.folders_exist i p old)
        ]

        owner :
            (i j p : Text)
            → from_cache (set_cache cd idf dst) i ≡ some p
            → from_cache (set_cache cd idf dst) j ≡ some p
            → i ≡ j
        owner i j p h k = elim (set_cache_found cd idf i dst p h) [
          | inl (mine, e) ↦ elim (set_cache_found cd idf j dst p k) [
            | inl (too, _) ↦ sym mine ∙ too
            | inr old ↦ absurd (fresh (subst (λ q. exists q d) (sym e) (v.folders_exist j p old)))
          ]
          | inr old ↦ elim (set_cache_found cd idf j dst p k) [
            | inl (_, e) ↦
                absurd (fresh (subst (λ q. exists q d) (sym e) (v.folders_exist i p old)))
            | inr old' ↦ v.one_owner i j p old old'
          ]
        ]

    -- `Get` keeps the invariant, whether it fails or not: the folders of the cache exist, and no two
    -- identifiers share one.
    get-Inv :
        (idf : Text) (cd : CachedDealer) (d : fs.Disk)
        → Inv cd d
        → let (dst, cd', d') = get fs idf cd d in Inv cd' d'
    unfolding get
    get-Inv idf cd d v = elim (Option-cases (from_cache cd idf)) [
      | inr (dst, cached) ↦ rw (cached, get) v
      | inl missing ↦ rw (missing, get) (new_folder (get_new fs idf cd d) refl)
    ]
      where
        kept :
            (p : Text) (d' : fs.Disk) (o : Option Text) (cd' : CachedDealer)
            → get_new fs idf cd d ≡ (o, cd', d')
            → exists p d
            → exists p d'
        kept p d' o cd' e h =
            subst (λ (r : Option Text × CachedDealer × fs.Disk). exists p r.2) e
              (get_new-keeps idf p cd d h)

        new_folder :
            (r : Option Text × CachedDealer × fs.Disk) → get_new fs idf cd d ≡ r → Inv r.1 r.2
        new_folder (none, cd', d') e = rw (get_new_failed idf cd cd' d d' e) (record {
          folders_exist = λ i p h. kept p d' none cd' e (v.folders_exist i p h);
          one_owner = v.one_owner;
        })
        new_folder (some dst, cd', d') e =
            let (set, made, copied) = get_new_went idf dst cd cd' d d' e in
            let d₁ = (fs.mkdir_temp cd.work_dir d).1 in
            rw set (
              set_cache-Inv idf dst cd d d' v (laws.mkdir_temp_new cd.work_dir dst d made)
                (rw copied (
                  copy_all-keeps cd dst dst (fs.walk cd.src_dir d₁) d₁
                    (laws.mkdir_temp_exists cd.work_dir dst d made)))
                (λ p h. kept p d' (some dst) cd' e h))
