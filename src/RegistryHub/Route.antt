-- ===== src/RegistryHub/Route.antt =====
-- Registry paths and names: internal/route of registry-hub. A Go string is the list of its bytes;
-- package net and the parsing of URIs and numbers are a parameter.
pub mod Names
pub mod Grammar
pub mod Internal
pub mod Parse
pub mod Escapes
pub mod Injective
pub mod Safe
mod Tests
use k8s_at_home.Prelude.{ℕ, Bool, true, false, ◌&&◌, ◌||◌, leb, Option, if◌then◌else◌}
use k8s_at_home.Prelude.Bytes.{Bytes}

pub record Platform : Type 0 where
  -- net.SplitHostPort, net.ParseIP and strconv.Atoi, which has no negative results here
  pub split_host_port : Bytes → Option (Bytes × Bytes)
  pub is_ip : Bytes → Bool
  pub atoi : Bytes → Option ℕ
  -- url.ParseRequestURI with EscapedPath of a path that is not empty, and url.PathUnescape
  pub escaped_path : Bytes → Option Bytes
  pub path_unescape : Bytes → Option Bytes

abbrev pub lower : ℕ → Bool
lower c = leb 97 c && leb c 122

abbrev pub upper : ℕ → Bool
upper c = leb 65 c && leb c 90

abbrev pub digit : ℕ → Bool
digit c = leb 48 c && leb c 57

abbrev pub lower_or_digit : ℕ → Bool
lower_or_digit c = lower c || digit c

abbrev pub letter_or_digit : ℕ → Bool
letter_or_digit c = lower c || upper c || digit c
