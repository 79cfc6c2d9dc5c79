-- ===== src/Sahara/Protocol/Handshake/Version.antt =====
-- The version that a handshake agrees on.
use mboot_core.Prelude.{ℕ, ◌≤◌, ◌≡◌, arith, true, false}
use mboot_core.Sahara.Protocol.{default_version, default_version_supported}
use mboot_core.Sahara.Protocol.Handshake.{select_version, is_mismatch}

-- A version that the host and the device both speak.
abbrev pub IsCommon : ℕ → ℕ → ℕ → Type 0
IsCommon version version_supported v =
    (default_version_supported ≤ v)
    × (v ≤ default_version)
    × (version_supported ≤ v)
    × (v ≤ version)

-- A choice that passes the test is common to both, and no common version is greater.
pub select_version-greatest :
    (version version_supported : ℕ)
    → is_mismatch (select_version version version_supported) version version_supported ≡ false
    → IsCommon version version_supported (select_version version version_supported)
      × ((v : ℕ)
          → IsCommon version version_supported v
          → v ≤ select_version version version_supported)
unfolding select_version is_mismatch
select_version-greatest a b h = (ground arith, λ v c. ground arith)

-- A choice that does not pass shows that host and device have no version in common.
pub mismatch-no-IsCommon :
    (version version_supported v : ℕ)
    → is_mismatch (select_version version version_supported) version version_supported ≡ true
    → ¬ IsCommon version version_supported v
unfolding select_version is_mismatch
mismatch-no-IsCommon a b v h c = ground arith
