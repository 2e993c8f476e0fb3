-- ===== src/Migrate/Fragment.antt =====
-- The compose fragment of a service in scripts/migrate-dokploy.ts: `rawFragment`, `namedVolumes`.
use vexdock.Base.{
  Bool, true, false, not, ◌&&◌, Option, none, some, List, [], ◌∷◌, ◌==◌, if◌then◌else◌, map,
}
use vexdock.Text.{Text, codes, text_eq, trim_end, starts_with, has_prefix, before, split, join}
use vexdock.Migrate.Types.{
  Yaml, nothing, flag, number, text, sequence, mapping, Items, nil, item, Fields, end, field,
}

unfoldable pub get_field : Text → Fields → Option Yaml
get_field key end = none
get_field key (field k v rest) =
    let found = get_field key rest in if text_eq k key then some v else found

-- `delete`, and what a rest pattern leaves out.
unfoldable pub remove_field : Text → Fields → Fields
remove_field key end = end
remove_field key (field k v rest) =
    if text_eq k key then remove_field key rest else field k v (remove_field key rest)

-- A property that is not there yet is added last.
unfoldable pub add_field : Text → Yaml → Fields → Fields
add_field key v end = field key v end
add_field key v (field k w rest) = field k w (add_field key v rest)

abbrev pub is_traefik : Text → Bool
is_traefik = has_prefix (codes "traefik.")

-- `typeof l === 'string' && !l.startsWith('traefik.')`
abbrev pub keeps_label : Yaml → Bool
keeps_label (text l) = not (is_traefik l)
keeps_label _ = false

unfoldable pub filter_items : (Yaml → Bool) → Items → Items
filter_items p nil = nil
filter_items p (item v rest) = if p v then item v (filter_items p rest) else filter_items p rest

unfoldable pub filter_keys : (Text → Bool) → Fields → Fields
filter_keys p end = end
filter_keys p (field k v rest) = if p k then field k v (filter_keys p rest) else filter_keys p rest

abbrev pub set_label_list : Items → Fields → Fields
set_label_list nil rest = rest
set_label_list (item v vs) rest = add_field (codes "labels") (sequence (item v vs)) rest

abbrev pub set_label_map : Fields → Fields → Fields
set_label_map end rest = rest
set_label_map (field k v kept) rest = add_field (codes "labels") (mapping (field k v kept)) rest

abbrev pub set_labels : Option Yaml → Fields → Fields
set_labels (some (sequence labels)) rest = set_label_list (filter_items keeps_label labels) rest
set_labels (some (mapping labels)) rest =
    set_label_map (filter_keys (λ k. not (is_traefik k)) labels) rest
set_labels _ rest = rest

-- What `rawFragment` hands to the YAML library.
unfoldable pub raw_fields : Fields → Fields
raw_fields body = set_labels (get_field (codes "labels") body) (
    remove_field (codes "container_name")
      (remove_field (codes "networks") (remove_field (codes "labels") body)))

-- `n !== 'dokploy-network' && n !== 'default'`
abbrev pub is_custom : Yaml → Bool
is_custom (text n) = not (text_eq n (codes "dokploy-network")) && not (text_eq n (codes "default"))
is_custom _ = true

abbrev pub has_items : Items → Bool
has_items nil = false
has_items (item _ _) = true

abbrev pub is_truthy : Yaml → Bool
is_truthy nothing = false
is_truthy (flag b) = b
is_truthy (number n) = not (n == 0)
is_truthy (text s) = not (text_eq s [])
is_truthy _ = true

-- Whether the service names networks of its own, which are dropped with a note.
abbrev pub drops_networks : Option Yaml → Bool
drops_networks none = false
drops_networks (some (sequence networks)) = has_items (filter_items is_custom networks)
drops_networks (some networks) = is_truthy networks

-- `.split('\n').map(line => line.trimEnd()).join('\n')`
unfoldable pub trim_lines : Text → Text
trim_lines s = join 10 (map trim_end (split 10 s))

-- The volume of an entry; the outer `none` is a TypeError, the inner one no volume.
abbrev pub source_of : Option Yaml → Option (Option Text)
source_of (some (text s)) = some (some s)
source_of none = some none
source_of (some v) = if is_truthy v then none else some none

abbrev pub volume_of : Yaml → Option (Option Text)
volume_of (text s) = some (some (before b':' s))
volume_of (mapping fields) = source_of (get_field (codes "source") fields)
volume_of nothing = none
volume_of _ = some none

-- `volume && !volume.startsWith('.') && !volume.startsWith('/')`
abbrev pub is_named : Text → Bool
is_named volume =
    not (text_eq volume []) && not (starts_with b'.' volume) && not (starts_with b'/' volume)

abbrev pub keep_named : Option (Option Text) → Option (List Text) → Option (List Text)
keep_named none rest = none
keep_named (some none) rest = rest
keep_named (some (some volume)) none = none
keep_named (some (some volume)) (some names) =
    some (if is_named volume then volume ∷ names else names)

unfoldable pub volume_names : Items → Option (List Text)
volume_names nil = some []
volume_names (item v rest) = keep_named (volume_of v) (volume_names rest)

-- `namedVolumes`; `none` is a TypeError. Compose lists a service's volumes: of the other kinds
-- only an absent or null list is let through.
abbrev pub names_in : Option Yaml → Option (List Text)
names_in none = some []
names_in (some nothing) = some []
names_in (some (sequence entries)) = volume_names entries
names_in (some _) = none

unfoldable pub named_volumes : Fields → Option (List Text)
named_volumes body = names_in (get_field (codes "volumes") body)
