-- ===== src/Plugins/Discovery.antt =====
-- LoadPlugin, DiscoverIn and Discover of src/infra/fs/plugin/discovery.go.
use Prim.Native.String.{◌++◌ as concat}
use recur.Prelude.{
  ◌≡◌, ◌⊎◌, refl, sym, ap, subst, Bool-cases, String, String_eq, Bool, ◌||◌, inl, inr, List, [],
  ◌∷◌, if◌then◌else◌, In,
}
use recur.Prelude.Result.{Resolved, resolved, unresolved}
use recur.Plugins.{InstalledPlugin, Manifest}
use recur.Plugins.ManifestFile.{ManifestLibrary, load_manifest}
use recur.Plugins.ManifestFile.Validity.{IsManifest}
use recur.Plugins.ManifestFile.Acceptance.{parse_manifest-IsManifest}

-- os.DirEntry: its name, and whether it is a directory or a symbolic link
pub record DirEntry : Type 0 where
  pub name : String
  pub is_dir : Bool
  pub is_link : Bool

-- What os.ReadDir returns; `missing` is an error that os.IsNotExist recognises.
pub data Listing : Type 0 where
  entries : List DirEntry → Listing
  missing : Listing
  unreadable : String → Listing

-- filepath.Join, os.ReadFile, os.ReadDir, the id of a namespace by SHA-256, the format %q, the YAML
-- library, and sort.Slice by name
pub record Folder : Type 0 where
  pub join : String → String → String
  pub read_file : String → Resolved String
  pub read_dir : String → Listing
  pub generate_id : String → String
  pub quote : String → String
  pub yaml : ManifestLibrary
  pub sort_by_name : List InstalledPlugin → List InstalledPlugin

installed : Folder → String → Resolved Manifest → Resolved InstalledPlugin
installed fs dir (unresolved e) = unresolved e
installed fs dir (resolved m) =
    resolved (record { id = fs.generate_id m.namespace; dir = dir; manifest = m })

-- LoadPlugin
unfoldable pub load_plugin : Folder → String → Resolved InstalledPlugin
unfolding installed load_manifest
load_plugin fs dir =
    installed fs dir (load_manifest fs.yaml (fs.read_file (fs.join dir "manifest.yaml")))

collected :
    Folder
    → String
    → Resolved InstalledPlugin
    → List InstalledPlugin × List String
    → List InstalledPlugin × List String
collected fs name (resolved p) (ps, errs) = (p ∷ ps, errs)
collected fs name (unresolved e) (ps, errs) =
    (ps, concat "plugin " (concat (fs.quote name) (concat ": " e)) ∷ errs)

-- The loop of DiscoverIn
unfoldable pub discover_entries :
    Folder → String → List DirEntry → List InstalledPlugin × List String
unfolding collected load_plugin
discover_entries fs dir [] = ([], [])
discover_entries fs dir (entry ∷ rest) =
    let found = discover_entries fs dir rest in
    if entry.is_dir || entry.is_link
    then collected fs entry.name (load_plugin fs (fs.join dir entry.name)) found
    else found

discover_listing : Folder → String → Listing → List InstalledPlugin × List String
unfolding discover_entries
discover_listing fs dir (entries es) =
    let (ps, errs) = discover_entries fs dir es in (fs.sort_by_name ps, errs)
discover_listing fs dir missing = ([], [])
discover_listing fs dir (unreadable e) = ([], concat "could not read plugins directory: " e ∷ [])

-- DiscoverIn
unfoldable pub discover_in : Folder → String → List InstalledPlugin × List String
unfolding discover_listing
discover_in fs dir = discover_listing fs dir (fs.read_dir dir)

-- Discover, from what PluginsDir returns
unfoldable pub discover : Folder → Resolved String → List InstalledPlugin × List String
unfolding discover_in
discover fs (unresolved e) = ([], e ∷ [])
discover fs (resolved dir) = discover_in fs dir

-- What a plugin is that was loaded from a directory: its manifest is valid and gives its id.
pub record IsLoaded (fs : Folder) (p : InstalledPlugin) : Type 0 where
  pub valid : IsManifest p.manifest
  pub id : p.id ≡ fs.generate_id p.manifest.namespace

load_manifest-IsManifest :
    (lib : ManifestLibrary) (r : Resolved String) {m : Manifest}
    → load_manifest lib r ≡ resolved m
    → IsManifest m
unfolding load_manifest
load_manifest-IsManifest lib (unresolved e) h = cc
load_manifest-IsManifest lib (resolved text) h = parse_manifest-IsManifest lib text h

installed-IsLoaded :
    (fs : Folder) (dir : String) (r : Resolved Manifest) {p : InstalledPlugin}
    → ((m : Manifest) → r ≡ resolved m → IsManifest m)
    → installed fs dir r ≡ resolved p
    → IsLoaded fs p
unfolding installed
installed-IsLoaded fs dir (unresolved e) valid h = cc
installed-IsLoaded fs dir (resolved m) {p} valid h =
    let same : record { id = fs.generate_id m.namespace; dir = dir; manifest = m } ≡ p = cc h in
    subst (IsLoaded fs) same (record { valid = valid m refl; id = refl })

load_plugin-IsLoaded :
    (fs : Folder) (dir : String) {p : InstalledPlugin}
    → load_plugin fs dir ≡ resolved p
    → IsLoaded fs p
unfolding load_plugin
load_plugin-IsLoaded fs dir h =
    installed-IsLoaded fs dir (load_manifest fs.yaml (fs.read_file (fs.join dir "manifest.yaml")))
      (λ m. load_manifest-IsManifest fs.yaml (fs.read_file (fs.join dir "manifest.yaml"))) h

In-collected :
    (fs : Folder) (name : String) (r : Resolved InstalledPlugin)
    (found : List InstalledPlugin × List String) (p : InstalledPlugin)
    → In p (collected fs name r found).0
    → (r ≡ resolved p) ⊎ In p found.0
unfolding collected
In-collected fs name (resolved q) (ps, errs) p (inl e) = inl (ap resolved (sym e))
In-collected fs name (resolved q) (ps, errs) p (inr i) = inr i
In-collected fs name (unresolved e) (ps, errs) p i = inr i

discover_entries-IsLoaded :
    (fs : Folder) (dir : String) (es : List DirEntry) (p : InstalledPlugin)
    → In p (discover_entries fs dir es).0
    → IsLoaded fs p
unfolding discover_entries
discover_entries-IsLoaded fs dir [] p i = absurd i
discover_entries-IsLoaded fs dir (entry ∷ es) p i =
    elim (Bool-cases (entry.is_dir || entry.is_link)) [
      | inl e ↦
          elim (In-collected fs entry.name (load_plugin fs (fs.join dir entry.name))
            (discover_entries fs dir es) p (rw e at i)) [
              | inl h ↦ load_plugin-IsLoaded fs (fs.join dir entry.name) h
              | inr j ↦ discover_entries-IsLoaded fs dir es p j
            ]
      | inr e ↦ discover_entries-IsLoaded fs dir es p (rw e at i)
    ]

-- Where sort.Slice adds no plugin, every plugin that DiscoverIn returns was loaded: its manifest is
-- valid, and its id is that of the manifest's namespace.
pub discover_in-IsLoaded :
    (fs : Folder) (dir : String)
    → ((ps : List InstalledPlugin) (q : InstalledPlugin) → In q (fs.sort_by_name ps) → In q ps)
    → (p : InstalledPlugin) → In p (discover_in fs dir).0
    → IsLoaded fs p
unfolding discover_in
discover_in-IsLoaded fs dir sorts p i = listed (fs.read_dir dir) i
  where
    listed : (l : Listing) → In p (discover_listing fs dir l).0 → IsLoaded fs p
    listed (entries es) i =
        discover_entries-IsLoaded fs dir es p (sorts (discover_entries fs dir es).0 p i)
    listed missing i = absurd i
    listed (unreadable e) i = absurd i
