-- ===== src/Script/Writing.antt =====
-- `ShScriptBuilder::write` of src/scriptbuilder.cpp: the text of the script of a job, with the files that
-- its command lines leave. The paths of the job, its number and the text of its tags (YAML) are given.
pub mod Files
use experimaestro.Prelude.{
  ℕ, Bool, true, false, Option, none, some, List, [], ◌∷◌, ◌++◌, Text, codes, if◌then◌else◌,
}
use experimaestro.Errors.{Result, ok, err, ◌>>=◌}
use experimaestro.Path
use experimaestro.Path.{FilePath, parent, child}
use experimaestro.Connector.{resolve}
use experimaestro.Launcher.Redirections.{Redirect}
use experimaestro.Script.{protect_quoted}
use experimaestro.Command.Context.{CommandContext}
use experimaestro.Command.Output.{Setting, Output, Part, NamedPipes, resolve_in, write, output_line}

-- A command line: its own input and its commands.
pub record Line : Type 0 where
  pub own : Redirect
  pub parts : List Part

-- The attributes of a `ShScriptBuilder`.
pub record Builder : Type 0 where
  pub sh_path : Text
  pub lock_files : List FilePath
  pub environment : List (Text × Text)
  pub notification_url : Text
  pub preprocess_commands : Option Line
  pub command : Line

-- What `write` asks of the job.
pub record JobFiles : Type 0 where
  pub start_lock : FilePath
  pub pid : FilePath
  pub exit_code : FilePath
  pub done : FilePath
  pub job_id : Text
  pub tags_text : Text

-- `path.parent().resolve({path.name() + ".sh"})`
unfoldable pub script_path : FilePath → FilePath
unfolding parent child Path.name
script_path path = child (parent path) (Path.name path ++ codes ".sh")

module _ (s : Setting) where
  -- A text for each path of a list, from what it is resolved to.
  unfoldable pub for_each : (FilePath → Result Text) → (Text → Text) → List FilePath → Result Text
  for_each resolves line [] = ok []
  for_each resolves line (f ∷ fs) = do
    t ← resolves f
    rest ← for_each resolves line fs
    ok (line t ++ rest)

  unfoldable pub check_locks : List FilePath → Result Text
  unfolding for_each resolve
  check_locks [] = ok []
  check_locks (f ∷ fs) = do
    lines ←
        for_each (resolve s.mounts)
          (λ t. codes "if ! test -f " ++ (t ++ codes "; then echo Locks not set; exit 017; fi\n"))
          (f ∷ fs)
    ok (codes "# Checks that the locks are set\n" ++ lines)

  -- The test of the start lock, and its removal.
  unfoldable pub check_start_lock : FilePath → Result Text
  unfolding resolve
  check_start_lock start_lock = do
    t ← resolve s.mounts start_lock
    ok (
        codes "# Checks that the start lock is set, and removes it\nif ! test -f "
        ++ (t
            ++ (codes "; then echo start lock not set; exit 017; fi\nrm -f "
                ++ (t ++ codes "\n\n"))))

  unfoldable pub exports : List (Text × Text) → Text
  unfolding protect_quoted
  exports [] = []
  exports ((key, value) ∷ more) =
      codes "export "
      ++ (key ++ (codes "=\"" ++ (protect_quoted value ++ (codes "\"\n" ++ exports more))))

  unfoldable pub export_url : Text → Text → Text
  unfolding protect_quoted
  export_url [] job_id = []
  export_url (c ∷ url) job_id =
      codes "export XPM_NOTIFICATION_URL=\""
      ++ (protect_quoted (c ∷ url) ++ (codes "/" ++ (job_id ++ codes "\"\n")))

  -- What stands before the first command line.
  unfoldable pub preamble : Builder → JobFiles → FilePath → Result Text
  unfolding check_locks check_start_lock resolve protect_quoted exports export_url
  preamble b j directory = do
    locks ← check_locks b.lock_files
    start ← check_start_lock j.start_lock
    pid ← resolve s.mounts j.pid
    d ← resolve s.mounts directory
    ok (
        codes "#!"
        ++ (b.sh_path
            ++ (codes "\n# Experimaestro generated task\n\n# __tags__ = "
                ++ (j.tags_text
                    ++ (codes "\n\n"
                        ++ (locks
                            ++ (start
                                ++ (codes "set -o pipefail\n\necho $$ > \""
                                    ++ (protect_quoted pid
                                        ++ (codes "\"\n\n"
                                            ++ (exports b.environment
                                                ++ (export_url b.notification_url j.job_id
                                                    ++ (codes "cd \""
                                                        ++ (protect_quoted d
                                                            ++ codes "\"\n"))))))))))))))

  -- The named pipes of the commands are removed.
  unfoldable pub remove_pipes : FilePath → List Part → Result Text
  unfolding for_each resolve_in
  remove_pipes directory [] = ok []
  remove_pipes directory (p ∷ ps) = do
    outputs ←
        for_each (λ f. resolve_in s.mounts f directory) (λ t. codes " rm -f " ++ (t ++ codes ";\n"))
          p.named.outputs
    errors ←
        for_each (λ f. resolve_in s.mounts f directory) (λ t. codes " rm -f " ++ (t ++ codes ";\n"))
          p.named.errors
    rest ← remove_pipes directory ps
    ok (outputs ++ (errors ++ rest))

  unfoldable pub notify_end : Text → Text
  notify_end [] = []
  notify_end (c ∷ url) =
      codes " wget --tries=1 --connect-timeout=1 --read-timeout=1 --quiet -O /dev/null "
      ++ codes "\"$XPM_NOTIFICATION_URL?status=eoj\"\n"

  -- The function `cleanup` of the script, and the trap that calls it.
  unfoldable pub cleanup : Builder → JobFiles → FilePath → Result Text
  unfolding resolve_in for_each remove_pipes notify_end
  cleanup b j directory = do
    pid ← resolve_in s.mounts j.pid directory
    locks ←
        for_each (λ f. resolve_in s.mounts f directory) (λ t. codes " rm -f " ++ (t ++ codes "\n"))
          b.lock_files
    pipes ← remove_pipes directory b.command.parts
    ok (
        codes "cleanup() {\n echo Cleaning up 1>&2\n trap - 0\n rm -f "
        ++ (pid
            ++ (codes ";\n"
                ++ (locks
                    ++ (pipes
                        ++ (notify_end b.notification_url
                            ++ (codes " test ! -z \"$PID\" && pkill -KILL -P $PID\n}\n\n"
                                ++ (codes "# Set trap to cleanup when exiting\ntrap cleanup 0\n\n"
                                    ++ (codes
                                          "checkerror()  { local e; for e in \"$@\"; do [[ \"$e\" != 0 ]] "
                                        ++ codes
                                            "&& [[ \"$e\" != 141 ]] && exit $e; done; return 0; }\n\n(\n")))))))))

  -- What stands behind the last command line.
  unfoldable pub conclusion : JobFiles → FilePath → Result Text
  unfolding resolve_in protect_quoted
  conclusion j directory = do
    code ← resolve_in s.mounts j.exit_code directory
    done ← resolve_in s.mounts j.done directory
    ok (
        codes ")  & \nPID=$!\nwait $PID\ncode=$?\nif test $code -ne 0; then\n echo $code > \""
        ++ (protect_quoted code
            ++ (codes "\"\n exit $code\nfi\necho 0 > \""
                ++ (protect_quoted code
                    ++ (codes "\"\ntouch \"" ++ (protect_quoted done ++ codes "\"\n"))))))

  unfoldable pub output_optional : Option Line → Output → Result Output
  unfolding output_line
  output_optional none o = ok o
  output_optional (some l) o = output_line s l.own l.parts o

  -- `ShScriptBuilder::write`: the path of the script, and the output with the text of the script.
  unfoldable pub write_script : Builder → JobFiles → FilePath → Result (FilePath × Output)
  unfolding preamble output_optional cleanup output_line conclusion script_path parent Path.name
      write
  write_script b j path = do
    first ← preamble b j (parent path)
    o ← output_optional b.preprocess_commands (record {
      out = first;
      files = [];
      context = record { folder = parent path; name = Path.name path; counts = [] };
    })
    middle ← cleanup b j (parent path)
    o' ← output_line s b.command.own b.command.parts (write middle o)
    last ← conclusion j (parent path)
    ok (script_path path, write last o')
