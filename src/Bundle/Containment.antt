-- ===== src/Bundle/Containment.antt =====
-- Where Unpack of src/infra/fs/appbundle/bundle.go writes.
use recur.Prelude.{
  ◌≡◌, refl, String, Option, none, some, Bool, true, false, List, [], ◌∷◌, if◌then◌else◌,
}
use recur.Prelude.Result.{Resolved, resolved, unresolved}
use recur.Bundle.{
  Change, made_dir, created, filled, Disk, ZipFile, DiskOutcome, and_then, made, copy_content,
  create_file, extract_entry, unless_error, has_root_recurfile, is_inside, unpack_files, unpack,
}

-- A change that Unpack may make for a destination: the destination's directory; a directory or a file
-- inside it; the parent directory of one
pub data IsContained (disk : Disk) (dest : String) : Change → Type 0 where
  destination : IsContained disk dest (made_dir dest)
  directory :
      (path : String)
      → is_inside (disk.clean dest) path ≡ true
      → IsContained disk dest (made_dir path)
  parent :
      (path : String)
      → is_inside (disk.clean dest) path ≡ true
      → IsContained disk dest (made_dir (disk.dir path))
  new_file :
      (path : String)
      → is_inside (disk.clean dest) path ≡ true
      → IsContained disk dest (created path)
  content :
      (path text : String)
      → is_inside (disk.clean dest) path ≡ true
      → IsContained disk dest (filled path text)

pub data AreContained (disk : Disk) (dest : String) : List Change → Type 0 where
  no_change : AreContained disk dest []
  one_more :
      {c : Change} {cs : List Change}
      → IsContained disk dest c
      → AreContained disk dest cs
      → AreContained disk dest (c ∷ cs)

and_then-AreContained :
    (disk : Disk) (dest : String) (o : DiskOutcome) (next : List Change → DiskOutcome)
    → AreContained disk dest o.0
    → ((cs : List Change) → AreContained disk dest cs → AreContained disk dest (next cs).0)
    → AreContained disk dest (and_then o next).0
unfolding and_then
and_then-AreContained disk dest (cs, some e) next h step = h
and_then-AreContained disk dest (cs, none) next h step = step cs h

unless_error-AreContained :
    (disk : Disk) (dest : String) (e : Option String) (cs : List Change) (next : DiskOutcome)
    → AreContained disk dest cs
    → AreContained disk dest next.0
    → AreContained disk dest (unless_error e cs next).0
unfolding unless_error
unless_error-AreContained disk dest (some e) cs next h h' = h
unless_error-AreContained disk dest none cs next h h' = h'

if-AreContained :
    (disk : Disk) (dest : String) (b : Bool) (x y : DiskOutcome)
    → (b ≡ true → AreContained disk dest x.0)
    → (b ≡ false → AreContained disk dest y.0)
    → AreContained disk dest (if b then x else y).0
if-AreContained disk dest true x y h h' = h refl
if-AreContained disk dest false x y h h' = h' refl

made-AreContained :
    (disk : Disk) (dest path : String) (cs : List Change)
    → IsContained disk dest (made_dir path)
    → AreContained disk dest cs
    → AreContained disk dest (made disk path cs).0
unfolding made
made-AreContained disk dest path cs new h =
    unless_error-AreContained disk dest (disk.mkdir_all cs path) cs (made_dir path ∷ cs, none) h
      (one_more new h)

copy_content-AreContained :
    (disk : Disk) (dest : String) (f : ZipFile) (path : String) (cs : List Change)
    → is_inside (disk.clean dest) path ≡ true
    → AreContained disk dest cs
    → AreContained disk dest (copy_content disk f path cs).0
unfolding copy_content
copy_content-AreContained disk dest f path cs inside h =
    unless_error-AreContained disk dest f.open_error cs _ h
      (one_more (content path f.content inside) h)

create_file-AreContained :
    (disk : Disk) (dest : String) (f : ZipFile) (path : String) (cs : List Change)
    → is_inside (disk.clean dest) path ≡ true
    → AreContained disk dest cs
    → AreContained disk dest (create_file disk f path cs).0
unfolding create_file
create_file-AreContained disk dest f path cs inside h =
    unless_error-AreContained disk dest (disk.open_file cs path) cs _ h (
      copy_content-AreContained disk dest f path (created path ∷ cs) inside
        (one_more (new_file path inside) h))

extract_entry-AreContained :
    (disk : Disk) (dest : String) (f : ZipFile) (path : String) (cs : List Change)
    → is_inside (disk.clean dest) path ≡ true
    → AreContained disk dest cs
    → AreContained disk dest (extract_entry disk f path cs).0
unfolding extract_entry
extract_entry-AreContained disk dest f path cs inside h =
    if-AreContained disk dest f.is_dir _ _
      (λ d. made-AreContained disk dest path cs (directory path inside) h)
      (λ d.
        and_then-AreContained disk dest (made disk (disk.dir path) cs) (create_file disk f path)
          (made-AreContained disk dest (disk.dir path) cs (parent path inside) h)
          (λ cs' h'. create_file-AreContained disk dest f path cs' inside h'))

unpack_files-AreContained :
    (disk : Disk) (dest : String) (fs : List ZipFile) (cs : List Change)
    → AreContained disk dest cs
    → AreContained disk dest (unpack_files disk (disk.clean dest) fs cs).0
unfolding unpack_files
unpack_files-AreContained disk dest [] cs h = h
unpack_files-AreContained disk dest (f ∷ fs) cs h =
    let path = disk.join (disk.clean dest) (disk.clean f.name) in
    if-AreContained disk dest (is_inside (disk.clean dest) path) _ _
      (λ inside.
        and_then-AreContained disk dest (extract_entry disk f path cs)
          (unpack_files disk (disk.clean dest) fs)
          (extract_entry-AreContained disk dest f path cs inside h)
          (λ cs' h'. unpack_files-AreContained disk dest fs cs' h'))
      (λ outside. h)

-- Whatever the names in the bundle and whatever calls fail, each change that Unpack makes is the
-- destination's directory, a directory or a file at a path that is the cleaned destination or starts
-- with it and a slash, or the parent directory of such a path.
pub unpack-AreContained :
    (disk : Disk) (bundle_path dest : String) (opened : Resolved (List ZipFile))
    → AreContained disk dest (unpack disk bundle_path dest opened).0
unfolding unpack
unpack-AreContained disk bundle_path dest (unresolved e) = no_change
unpack-AreContained disk bundle_path dest (resolved files) =
    if-AreContained disk dest (has_root_recurfile disk files) _ _
      (λ root.
        and_then-AreContained disk dest (made disk dest [])
          (unpack_files disk (disk.clean dest) files)
          (made-AreContained disk dest dest [] destination no_change)
          (λ cs h. unpack_files-AreContained disk dest files cs h))
      (λ root. no_change)
