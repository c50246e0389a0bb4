-- ===== src/Launcher/Redirections.antt =====
-- `Redirection` and `Redirect` of include/public/xpm/launchers/launchers.hpp and
-- src/launchers/launchers.cpp, without the function of a pipe.
use experimaestro.Prelude.{[], Text}

pub data Redirection : Type 0 where
  inherit file pipe nowhere : Redirection

pub record Redirect : Type 0 where
  pub type : Redirection
  pub path : Text

-- `Redirect::file`
unfoldable pub to_file : Text → Redirect
to_file target = record { type = file; path = target }

-- `Redirect::inherit`, `Redirect::pipe` and `Redirect::none`
unfoldable pub of_type : Redirection → Redirect
of_type type = record { type = type; path = [] }
