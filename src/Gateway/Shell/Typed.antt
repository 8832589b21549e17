-- ===== src/Gateway/Shell/Typed.antt =====
-- A session whose commands the shell answers, over the file system of the session: what the SSH server
-- hands to its handlers, down to the calls of the disk.
use aegis_honeypot.Prelude.{List, Option}
use aegis_honeypot.Prelude.Text.{PathBuf}
use aegis_honeypot.Gateway.Session.{ActiveSession, Env}
use aegis_honeypot.Gateway.Session.Handler.{Call, handle_all}
use aegis_honeypot.Gateway.Session.Files.{handle_all-Has}
use aegis_honeypot.Gateway.Vfs.{VirtualFileSystem}
use aegis_honeypot.Gateway.Vfs.Confined.{IsSafe}
use aegis_honeypot.Gateway.Shell.{dispatch}
use aegis_honeypot.Gateway.Shell.Replies.{World}
use aegis_honeypot.Gateway.Shell.Confined.{dispatch-IsSafe}

-- The surroundings of a session with the shell of the gateway in its place.
abbrev pub with_shell :
    {F B : Type 0} → World → Env F VirtualFileSystem B → Env F VirtualFileSystem B
with_shell w env = record env { dispatch = dispatch w; current_path = λ v. v.current_path }

-- Whatever the SSH server hands to the handlers of a session (bytes that are typed, logins, requests,
-- the end of the channel), in any order and whatever the channel accepts, the virtual file system of
-- the session stays confined: every path that its operations create, write or remove on the disk is
-- the mount root with the names of entries behind it, at least one but for the creation of
-- directories, and without a mount root its operations change nothing on the disk. The session
-- starts with such a file system. What a payload fetch writes is no operation of it.
pub handle_all-IsSafe :
    {F B : Type 0} (mount lower : Option PathBuf) (w : World) (env : Env F VirtualFileSystem B)
    (calls : List Call) (s : ActiveSession F VirtualFileSystem B)
    → IsSafe mount lower s.vfs
    → IsSafe mount lower (handle_all (with_shell w env) calls s).vfs
handle_all-IsSafe mount lower w env calls s h =
    handle_all-Has (with_shell w env) (IsSafe mount lower) (dispatch-IsSafe mount lower w) calls s h
