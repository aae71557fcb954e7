-- ===== src/Mtp.antt =====
-- `MTP.DcOptions` of src/td/mtp.py: the data centres with their endpoints, in the order in which
-- they were added, and the built-in ones of src/td/configs.py.
pub mod Options
pub mod Config
pub mod Keyed
pub mod Layout
pub mod Stored
use opentele.Prelude.{
  ℕ, ◌+◌, ◌≡◌, refl, Bool, true, false, List, [], ◌∷◌, ◌++◌, ◌&&◌, not, All, length, arith,
  Bool-cases, inl, inr, if◌then◌else◌,
}
use opentele.Prelude.Int.{ℤ, pos, mask, ◌==ℤ◌, ==ℤ→eq}
use opentele.Prelude.Codes.{codes}
use opentele.Ids.{k_dc_shift}

pub data Environment : Type 0 where
  production test : Environment

pub record Endpoint : Type 0 where
  pub id : ℤ
  pub flags : ℤ
  pub ip : List ℕ
  pub port : ℤ
  pub secret : List ℕ

pub record DcOptions : Type 0 where
  pub enviroment : Environment
  pub centres : List (ℤ × List Endpoint)

unfoldable pub is_test_mode : DcOptions → Bool
is_test_mode o = elim o.enviroment [ production ↦ false | test ↦ true ]

-- `_data[id].append(endpoint)`, where a missing `id` gets an empty list first.
unfoldable pub append_endpoint : ℤ → Endpoint → List (ℤ × List Endpoint) → List (ℤ × List Endpoint)
append_endpoint id e [] = (id, e ∷ []) ∷ []
append_endpoint id e ((key, endpoints) ∷ rest) =
    if key ==ℤ id
    then (key, endpoints ++ e ∷ []) ∷ rest
    else (key, endpoints) ∷ append_endpoint id e rest

-- `applyOneGuarded`. Its loop over the endpoints only continues with itself, and changes nothing;
-- the secret that is stored is empty.
unfoldable pub apply_one_guarded : ℤ → ℤ → List ℕ → ℤ → List ℕ → DcOptions → DcOptions
apply_one_guarded id flags ip port secret o = record o {
  centres =
      append_endpoint id (record { id = id; flags = flags; ip = ip; port = port; secret = [] })
        o.centres;
}

-- `DcId.BareDcId`, whose remainder is not negative
abbrev pub bare_id : ℤ → ℕ
bare_id id = mask id k_dc_shift

-- `constructAddOne`
unfoldable pub construct_add_one : ℤ → ℤ → List ℕ → ℤ → List ℕ → DcOptions → DcOptions
construct_add_one id flags ip port secret o =
    apply_one_guarded (pos (bare_id id)) flags ip port secret o

-- `BuiltInDc`
pub record BuiltInDc : Type 0 where
  pub id : ℤ
  pub ip : List ℕ
  pub port : ℤ

abbrev built_in : ℕ → List ℕ → BuiltInDc
built_in id ip = record { id = pos id; ip = ip; port = pos 443 }

abbrev pub k_built_in_dcs : List BuiltInDc
k_built_in_dcs =
    built_in 1 (codes "149.154.175.50")
    ∷ built_in 2 (codes "149.154.167.51")
    ∷ built_in 2 (codes "95.161.76.100")
    ∷ built_in 3 (codes "149.154.175.100")
    ∷ built_in 4 (codes "149.154.167.91")
    ∷ built_in 5 (codes "149.154.171.5")
    ∷ []

abbrev pub k_built_in_dcs_ipv6 : List BuiltInDc
k_built_in_dcs_ipv6 =
    built_in 1 (codes "2001:0b28:f23d:f001:0000:0000:0000:000a")
    ∷ built_in 2 (codes "2001:067c:04e8:f002:0000:0000:0000:000a")
    ∷ built_in 3 (codes "2001:0b28:f23d:f003:0000:0000:0000:000a")
    ∷ built_in 4 (codes "2001:067c:04e8:f004:0000:0000:0000:000a")
    ∷ built_in 5 (codes "2001:0b28:f23f:f005:0000:0000:0000:000a")
    ∷ []

abbrev pub k_built_in_dcs_test : List BuiltInDc
k_built_in_dcs_test =
    built_in 1 (codes "149.154.175.10")
    ∷ built_in 2 (codes "149.154.167.40")
    ∷ built_in 3 (codes "149.154.175.117")
    ∷ []

abbrev pub k_built_in_dcs_ipv6_test : List BuiltInDc
k_built_in_dcs_ipv6_test =
    built_in 1 (codes "2001:0b28:f23d:f001:0000:0000:0000:000e")
    ∷ built_in 2 (codes "2001:067c:04e8:f002:0000:0000:0000:000e")
    ∷ built_in 3 (codes "2001:0b28:f23d:f003:0000:0000:0000:000e")
    ∷ []

-- `Flag.f_static | 0` and `Flag.f_static | Flag.f_ipv6`
abbrev pub f_static : ℤ
f_static = pos 16

abbrev pub f_static_ipv6 : ℤ
f_static_ipv6 = pos 17

-- `addToData`
unfoldable pub add_to_data : List BuiltInDc → ℤ → DcOptions → DcOptions
add_to_data [] flags o = o
add_to_data (dc ∷ dcs) flags o =
    add_to_data dcs flags (apply_one_guarded dc.id flags dc.ip dc.port [] o)

-- `constructFromBuiltIn`
unfoldable pub construct_from_built_in : DcOptions → DcOptions
unfolding add_to_data is_test_mode
construct_from_built_in o =
    if is_test_mode o
    then add_to_data k_built_in_dcs_ipv6_test f_static_ipv6
        (add_to_data k_built_in_dcs_test f_static o)
    else add_to_data k_built_in_dcs_ipv6 f_static_ipv6 (add_to_data k_built_in_dcs f_static o)

-- `DcOptions(enviroment)`
unfoldable pub new_options : Environment → DcOptions
unfolding construct_from_built_in
new_options e = construct_from_built_in (record { enviroment = e; centres = [] })
