-- ===== src/Executor/Policy.antt =====
-- The class attributes of `ReadOnlyCommandValidator`
-- (src/domain/executor/command_validator.py).
use ai_sre_platform_for_auto.Common.{
  Text, lit, ℕ, Bool, ◌||◌, ◌==◌, any, Dict, Option, none, some, List, [], ◌∷◌, false, true,
  text_eq,
}

unfoldable pub allowed_commands : List Text
allowed_commands =
    lit "cat"
    ∷ lit "df"
    ∷ lit "ps"
    ∷ lit "ss"
    ∷ lit "ip"
    ∷ lit "hostname"
    ∷ lit "uname"
    ∷ lit "journalctl"
    ∷ lit "docker"
    ∷ lit "kubectl"
    ∷ lit "free"
    ∷ lit "uptime"
    ∷ lit "lscpu"
    ∷ lit "lsblk"
    ∷ lit "systemctl"
    ∷ lit "hostnamectl"
    ∷ lit "tail"
    ∷ []

-- An entry of an allow-list: `none` is the `None` of `hostnamectl`, which needs no sub-command.
abbrev pub AllowedSet : Type 0
AllowedSet = List (Option Text)

unfoldable pub systemctl_allowed : AllowedSet
systemctl_allowed =
    some (lit "status")
    ∷ some (lit "show")
    ∷ some (lit "list-units")
    ∷ some (lit "list-unit-files")
    ∷ some (lit "is-active")
    ∷ some (lit "is-enabled")
    ∷ some (lit "get-default")
    ∷ some (lit "cat")
    ∷ some (lit "is-failed")
    ∷ some (lit "list-dependencies")
    ∷ some (lit "list-machines")
    ∷ []

unfoldable pub docker_allowed : AllowedSet
docker_allowed =
    some (lit "ps")
    ∷ some (lit "images")
    ∷ some (lit "inspect")
    ∷ some (lit "logs")
    ∷ some (lit "stats")
    ∷ some (lit "top")
    ∷ some (lit "version")
    ∷ some (lit "history")
    ∷ some (lit "diff")
    ∷ some (lit "port")
    ∷ some (lit "events")
    ∷ some (lit "system df")
    ∷ []

unfoldable pub kubectl_allowed : AllowedSet
kubectl_allowed =
    some (lit "get")
    ∷ some (lit "describe")
    ∷ some (lit "logs")
    ∷ some (lit "top")
    ∷ some (lit "version")
    ∷ some (lit "explain")
    ∷ some (lit "api-resources")
    ∷ some (lit "api-versions")
    ∷ some (lit "cluster-info")
    ∷ some (lit "config view")
    ∷ some (lit "auth can-i")
    ∷ []

unfoldable pub ip_allowed : AllowedSet
ip_allowed =
    some (lit "addr show")
    ∷ some (lit "link show")
    ∷ some (lit "route show")
    ∷ some (lit "neigh show")
    ∷ some (lit "addr")
    ∷ some (lit "link")
    ∷ some (lit "route")
    ∷ some (lit "neigh")
    ∷ []

unfoldable pub hostnamectl_allowed : AllowedSet
hostnamectl_allowed = some (lit "status") ∷ none ∷ []

unfoldable pub allowed_subcommands : Dict AllowedSet
unfolding systemctl_allowed docker_allowed kubectl_allowed ip_allowed hostnamectl_allowed
allowed_subcommands =
    (lit "systemctl", systemctl_allowed)
    ∷ (lit "docker", docker_allowed)
    ∷ (lit "kubectl", kubectl_allowed)
    ∷ (lit "ip", ip_allowed)
    ∷ (lit "hostnamectl", hostnamectl_allowed)
    ∷ []

-- `None in allowed_set`
unfoldable pub allows_none : AllowedSet → Bool
allows_none [] = false
allows_none (none ∷ set) = true
allows_none (some t ∷ set) = allows_none set

-- `prefix in allowed_set`
unfoldable pub allows : AllowedSet → Text → Bool
allows [] p = false
allows (none ∷ set) p = allows set p
allows (some t ∷ set) p = text_eq t p || allows set p

-- FORBIDDEN_CHARS_PATTERN, `[;&|<>`\$\n\r\(\)]`
unfoldable pub is_forbidden_char : ℕ → Bool
is_forbidden_char c =
    c == b';'
    || c == b'&'
    || c == b'|'
    || c == b'<'
    || c == b'>'
    || c == 96
    || c == b'$'
    || c == 10
    || c == 13
    || c == b'('
    || c == b')'

-- `FORBIDDEN_CHARS_PATTERN.search(arg)`
unfoldable pub has_forbidden_char : Text → Bool
unfolding is_forbidden_char
has_forbidden_char arg = any is_forbidden_char arg

unfoldable pub forbidden_journalctl_options : List Text
forbidden_journalctl_options =
    lit "--rotate" ∷ lit "--vacuum-size" ∷ lit "--vacuum-time" ∷ lit "--vacuum-files" ∷ []

-- The verbs that `validate` looks for in the arguments of `ip`.
unfoldable pub ip_verbs : List Text
ip_verbs = lit "add" ∷ lit "del" ∷ lit "set" ∷ lit "change" ∷ lit "replace" ∷ lit "flush" ∷ []
