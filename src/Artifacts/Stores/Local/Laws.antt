-- ===== src/Artifacts/Stores/Local/Laws.antt =====
-- The directory of `LocalArtifactStore` before and after a `put_bytes`.
use Prim.Native.String.{◌++◌}
use azure_ml_optimization_pl.Base.{
  subst, String, ◌≡◌, ◌≢◌, refl, ap, lookup, insert, lookup-insert, lookup-insert_self, Option,
  none, some, List, [], ◌∷◌, arith, eq_iff,
}
use azure_ml_optimization_pl.Errors.{Error, ok}
use azure_ml_optimization_pl.Exec.{pure}
use azure_ml_optimization_pl.Exec.Ensures.{
  Keeps, Keeps-pure, Keeps-bind, Keeps-state, Keeps-of, bind_inverse,
}
use azure_ml_optimization_pl.Artifacts.Stores.Local.{
  FilePath, path_text, Entry, directory, file, Disk, Calls, made, make_directory, mkdir, cut_off,
  written, write_bytes, destination, put_bytes,
}

module _ (B : Type 0) where
  -- There is a file with these bytes at the path.
  abbrev pub Holds : (path : String) → B → Disk B → Type 0
  Holds path b disk = lookup path disk ≡ some (file b)

  insert-Holds :
      (path other : String) (b : B) (entry : Entry B) (disk : Disk B)
      → other ≢ path
      → Holds path b disk
      → Holds path b (insert other entry disk)
  insert-Holds path other b entry disk apart h =
      rw (lookup-insert other path entry disk) (ground (arith, eq_iff other path))

  module _ (calls : Calls B) (path : String) (b : B) where
    made-Holds :
        (other : String) (e : Option Error) (entry : Option (Entry B)) (disk : Disk B)
        → lookup other disk ≡ entry
        → Holds path b disk
        → Holds path b (made B calls other e entry disk).1
    made-Holds other (some e) entry disk at h = h
    made-Holds other none (some directory) disk at h = h
    made-Holds other none (some (file c)) disk at h = h
    made-Holds other none none disk at h =
        insert-Holds path other b directory disk (λ same. cc (same, at, h)) h

    make_directory-Keeps : (other : String) → Keeps (Holds path b) (make_directory B calls other)
    unfolding make_directory
    make_directory-Keeps other =
        Keeps-of _ λ disk h. made-Holds other (calls.at_mkdir other) (lookup other disk) disk refl h

    mkdir-Keeps :
        (above : String) (parts : List String) → Keeps (Holds path b) (mkdir B calls above parts)
    unfolding mkdir
    mkdir-Keeps above [] = Keeps-pure tt
    mkdir-Keeps above (p ∷ ps) =
        Keeps-bind _ _ (make_directory-Keeps _) λ u. mkdir-Keeps (above ++ ("/" ++ p)) ps

    cut_off-Holds :
        (other : String) (left : Option B) (disk : Disk B)
        → other ≢ path
        → Holds path b disk
        → Holds path b (cut_off B calls other left disk)
    cut_off-Holds other none disk apart h = h
    cut_off-Holds other (some c) disk apart h = insert-Holds path other b (file c) disk apart h

    written-Holds :
        (other : String) (value : B) (e : Option Error) (entry : Option (Entry B)) (disk : Disk B)
        → other ≢ path
        → Holds path b disk
        → Holds path b (written B calls other value e entry disk).1
    written-Holds other value e (some directory) disk apart h = h
    written-Holds other value none none disk apart h = insert-Holds path other b _ disk apart h
    written-Holds other value none (some (file c)) disk apart h =
        insert-Holds path other b _ disk apart h
    written-Holds other value (some e) none disk apart h =
        cut_off-Holds other calls.left disk apart h
    written-Holds other value (some e) (some (file c)) disk apart h =
        cut_off-Holds other calls.left disk apart h

    write_bytes-Keeps :
        (other : String) (value : B)
        → other ≢ path
        → Keeps (Holds path b) (write_bytes B calls other value)
    unfolding write_bytes
    write_bytes-Keeps other value apart =
        Keeps-of _
          λ disk h. written-Holds other value calls.at_write (lookup other disk) disk apart h

  module _ (calls : Calls B) where
    written-ok :
        (path : String) (value : B) (e : Option Error) (entry : Option (Entry B)) (disk t : Disk B)
        → written B calls path value e entry disk ≡ (ok tt, t)
        → Holds path value t
    written-ok path value e (some directory) disk t h = cc
    written-ok path value none none disk t h =
        subst (Holds path value) (ap (λ q. q.1) h) (lookup-insert_self path (file value) disk)
    written-ok path value none (some (file c)) disk t h =
        subst (Holds path value) (ap (λ q. q.1) h) (lookup-insert_self path (file value) disk)
    written-ok path value (some e) none disk t h = cc
    written-ok path value (some e) (some (file c)) disk t h = cc

  module _ (calls : Calls B) (cwd : List String) (root : FilePath) (id name : String)
      (value : B) where
    abbrev uri : String
    uri = path_text (destination B calls cwd root id name)

    put_bytes-ok :
        (path : String) (disk t : Disk B)
        → put_bytes B calls cwd root id name value disk ≡ (ok path, t)
        → Holds path value t
    unfolding put_bytes
    put_bytes-ok path disk t returned =
        let (u, made, at, behind) = bind_inverse _ _ disk t path returned in
        let (v, after, there, ends) = bind_inverse _ _ made t path behind in
        unfold pure write_bytes in
        let stored = written-ok calls uri value calls.at_write (lookup uri made) made after there in
        let same : uri ≡ path = cc ends in
        let last : after ≡ t = ap (λ q. q.1) ends in
        subst (λ p. Holds p value t) same (subst (Holds uri value) last stored)

    -- Whatever calls fail: a `put_bytes` that returns leaves the bytes at the path that it returns;
    -- and every file at another path than the artifact's keeps its bytes, also where it raises.
    pub put_bytes-Stored :
        (disk : Disk B)
        → let (r, t) = put_bytes B calls cwd root id name value disk in
          ((path : String) → r ≡ ok path → Holds path value t)
          × ((path : String) (b : B) → uri ≢ path → Holds path b disk → Holds path b t)
    unfolding put_bytes
    put_bytes-Stored disk = (
      λ path returned. put_bytes-ok path disk _ (rw returned refl),
      λ path b apart h.
          Keeps-state _
            (Keeps-bind _ _ (mkdir-Keeps calls path b "" _)
              λ u. Keeps-bind _ _ (write_bytes-Keeps calls path b _ value apart) λ v. Keeps-pure _)
            disk h,
    )
