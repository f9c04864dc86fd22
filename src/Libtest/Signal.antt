-- ===== src/Libtest/Signal.antt =====
-- `get_signal_name` of src/libtest/libtest.c, on a platform that defines all the signals. The numbers
-- of the signals stand in the platform's header.
use Prim.Native.String.{String}
use text.Mathlib.Text.{◌==◌}
use freehttpd.Base.{◌≡◌, refl, List, [], ◌∷◌, if◌then◌else◌}

-- a signal that has a name, or any other number
pub data Signal : Type 0 where
  sighup sigint sigquit sigill sigtrap sigabrt sigbus sigfpe sigkill sigusr1 sigsegv sigusr2 sigpipe
        sigalrm sigterm sigchld sigcont sigstop sigtstp sigttin sigttou sigurg sigxcpu sigxfsz
        sigvtalrm sigprof sigwinch sigpoll sigsys sigother :
      Signal

unfoldable pub get_signal_name : Signal → String
get_signal_name sighup = "SIGHUP"
get_signal_name sigint = "SIGINT"
get_signal_name sigquit = "SIGQUIT"
get_signal_name sigill = "SIGILL"
get_signal_name sigtrap = "SIGTRAP"
get_signal_name sigabrt = "SIGABRT"
get_signal_name sigbus = "SIGBUS"
get_signal_name sigfpe = "SIGFPE"
get_signal_name sigkill = "SIGKILL"
get_signal_name sigusr1 = "SIGUSR1"
get_signal_name sigsegv = "SIGSEGV"
get_signal_name sigusr2 = "SIGUSR2"
get_signal_name sigpipe = "SIGPIPE"
get_signal_name sigalrm = "SIGALRM"
get_signal_name sigterm = "SIGTERM"
get_signal_name sigchld = "SIGCHLD"
get_signal_name sigcont = "SIGCONT"
get_signal_name sigstop = "SIGSTOP"
get_signal_name sigtstp = "SIGTSTP"
get_signal_name sigttin = "SIGTTIN"
get_signal_name sigttou = "SIGTTOU"
get_signal_name sigurg = "SIGURG"
get_signal_name sigxcpu = "SIGXCPU"
get_signal_name sigxfsz = "SIGXFSZ"
get_signal_name sigvtalrm = "SIGVTALRM"
get_signal_name sigprof = "SIGPROF"
get_signal_name sigwinch = "SIGWINCH"
get_signal_name sigpoll = "SIGPOLL"
get_signal_name sigsys = "SIGSYS"
get_signal_name sigother = "UNKNOWN"

-- the signal of a name
unfoldable pub signal_named : List Signal → String → Signal
unfolding get_signal_name
signal_named [] name = sigother
signal_named (s ∷ signals) name =
    let rest = signal_named signals name in if get_signal_name s == name then s else rest

abbrev pub all_signals : List Signal
all_signals =
    sighup ∷ sigint ∷ sigquit ∷ sigill ∷ sigtrap ∷ sigabrt ∷ sigbus ∷ sigfpe ∷ sigkill ∷ sigusr1
    ∷ sigsegv ∷ sigusr2 ∷ sigpipe ∷ sigalrm ∷ sigterm ∷ sigchld ∷ sigcont ∷ sigstop ∷ sigtstp
    ∷ sigttin ∷ sigttou ∷ sigurg ∷ sigxcpu ∷ sigxfsz ∷ sigvtalrm ∷ sigprof ∷ sigwinch ∷ sigpoll
    ∷ sigsys ∷ []

-- The name that the report gives a signal stands for that signal alone.
pub signal_name_lem : (s : Signal) → signal_named all_signals (get_signal_name s) ≡ s
unfolding signal_named get_signal_name
signal_name_lem sighup = refl
signal_name_lem sigint = refl
signal_name_lem sigquit = refl
signal_name_lem sigill = refl
signal_name_lem sigtrap = refl
signal_name_lem sigabrt = refl
signal_name_lem sigbus = refl
signal_name_lem sigfpe = refl
signal_name_lem sigkill = refl
signal_name_lem sigusr1 = refl
signal_name_lem sigsegv = refl
signal_name_lem sigusr2 = refl
signal_name_lem sigpipe = refl
signal_name_lem sigalrm = refl
signal_name_lem sigterm = refl
signal_name_lem sigchld = refl
signal_name_lem sigcont = refl
signal_name_lem sigstop = refl
signal_name_lem sigtstp = refl
signal_name_lem sigttin = refl
signal_name_lem sigttou = refl
signal_name_lem sigurg = refl
signal_name_lem sigxcpu = refl
signal_name_lem sigxfsz = refl
signal_name_lem sigvtalrm = refl
signal_name_lem sigprof = refl
signal_name_lem sigwinch = refl
signal_name_lem sigpoll = refl
signal_name_lem sigsys = refl
signal_name_lem sigother = refl
