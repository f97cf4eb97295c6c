-- ===== src/Entra/Directory.antt =====
-- internal/entra/directory.go: a tenant's groups and their members, as the Graph surface sees them. A
-- letter or a digit of a mail nickname is an ASCII one.
pub mod Members
use mock_oidc.Entra.Lookup.{tenant, users_in, member_groups, group_meta}
use mock_oidc.Prelude.{
  ℕ, map, Option, filter, find?, ◌&&◌, leb, [], List, if◌then◌else◌, ◌∷◌, is_empty, ◌++◌, none,
  some, ◌||◌, true, Bool, false,
}
use mock_oidc.Text.{Text, lower_rune, mem, trim_space, ◌==◌, lower}
use mock_oidc.Entra.Types.{Group, User, Config, Tenant}
use mock_oidc.Entra.Guid.{Digest, group_object_id}
use mock_oidc.Sorting.{sort_by}

pub record DirGroup : Type 0 where
  pub oid : Text
  pub name : Text
  pub description : Text
  pub mail_nickname : Text
  pub mail : Text
  pub security_enabled : Bool
  pub mail_enabled : Bool
  pub membership_rule : Text

-- unicode.IsLetter or unicode.IsDigit, in ASCII
abbrev alphanumeric : ℕ → Bool
alphanumeric c =
    (leb b'a' c && leb c b'z') || (leb b'A' c && leb c b'Z') || (leb b'0' c && leb c b'9')

-- mailNickname
unfoldable pub mail_nickname : Text → Text
mail_nickname name = map lower_rune (filter alphanumeric name)

abbrev or_text : Text → Text → Text
or_text s t = if is_empty s then t else s

abbrev or_flag : Option Bool → Bool → Bool
or_flag none b = b
or_flag (some a) b = a

-- The fields that the declared metadata overrides.
abbrev with_meta : DirGroup → Option Group → DirGroup
with_meta g none = g
with_meta g (some m) = record {
  oid = or_text m.oid g.oid;
  name = g.name;
  description = m.description;
  mail_nickname = or_text m.mail_nickname g.mail_nickname;
  mail = m.mail;
  security_enabled = or_flag m.security_enabled g.security_enabled;
  mail_enabled = or_flag m.mail_enabled g.mail_enabled;
  membership_rule = m.membership_rule;
}

-- Config.dirGroup
unfoldable pub dir_group : Digest → Tenant → Text → DirGroup
dir_group d t name =
    with_meta
      (record {
        oid = group_object_id d t.tid name;
        name = name;
        description = [];
        mail_nickname = mail_nickname name;
        mail = [];
        security_enabled = true;
        mail_enabled = false;
        membership_rule = [];
      })
      (group_meta t name)

-- sortGroups
unfoldable pub sort_groups : List DirGroup → List DirGroup
sort_groups gs = sort_by (λ (g : DirGroup). g.oid) gs

-- sortUsers
unfoldable pub sort_users : List User → List User
sort_users us = sort_by (λ (u : User). u.oid) us

-- The names that `add` takes: each once, and not the empty one.
unfoldable pub named_once : List Text → List Text → List Text
named_once seen [] = []
named_once seen (name ∷ names) =
    let skip = named_once seen names in
    let keep = named_once (name ∷ seen) names in
    if is_empty name || mem name seen then skip else name ∷ keep

abbrev pub all_names : List User → List Text
all_names [] = []
all_names (u ∷ us) = member_groups u ++ all_names us

abbrev groups_of_tenant : Digest → Config → Option Tenant → List DirGroup
groups_of_tenant d c none = []
groups_of_tenant d c (some t) = sort_groups (
    map (dir_group d t)
      (named_once [] (map (λ (g : Group). g.name) t.groups ++ all_names (users_in c t.tid))))

-- Config.GroupsIn
unfoldable pub groups_in : Digest → Config → Text → List DirGroup
groups_in d c tid = groups_of_tenant d c (tenant c tid)

-- Config.GroupByID
unfoldable pub group_by_id : Digest → Config → Text → Text → Option DirGroup
group_by_id d c tid id =
    if is_empty (trim_space id)
    then none
    else find? (λ (g : DirGroup). lower g.oid == lower (trim_space id) || g.name == trim_space id)
        (groups_in d c tid)

abbrev groups_of_user : Digest → User → Option Tenant → List DirGroup
groups_of_user d u none = []
groups_of_user d u (some t) = sort_groups (map (dir_group d t) (named_once [] (member_groups u)))

-- Config.GroupsOf
unfoldable pub groups_of : Digest → Config → User → List DirGroup
groups_of d c u = groups_of_user d u (tenant c u.tid)

-- Config.GroupIDsOf
unfoldable pub group_ids_of : Digest → Config → User → List Text
group_ids_of d c u = map (λ (g : DirGroup). g.oid) (groups_of d c u)

abbrev members_in : Config → Text → Option DirGroup → List User
members_in c tid none = []
members_in c tid (some g) =
    sort_users (filter (λ (u : User). mem g.name (member_groups u)) (users_in c tid))

-- Config.MembersOf
unfoldable pub members_of : Digest → Config → Text → Text → List User
members_of d c tid id = members_in c tid (group_by_id d c tid id)

-- Config.UsersOrderedIn
unfoldable pub users_ordered_in : Config → Text → List User
users_ordered_in c tid = sort_users (users_in c tid)

-- Config.DirectReports
unfoldable pub direct_reports : Config → User → List User
direct_reports c u = sort_users (filter (λ (o : User). o.manager == u.username) (users_in c u.tid))
