-- ===== src/Probe/Platforms.antt =====
-- `PLATFORM_ID`: the chain over the names of the platforms.
use Prim.Native.String.{String}
use distributed_kvstore.Prelude.{Bool, false, ◌||◌, List, [], ◌∷◌, Bytes, codes, if◌then◌else◌}
use distributed_kvstore.Probe.{Macros, defined}

-- `defined(…) || defined(…)`
unfoldable pub any_defined : Macros → List String → Bool
any_defined m [] = false
any_defined m (name ∷ names) = defined m name || any_defined m names

-- A chain of `#elif` that only defines names, and what comes of it otherwise.
unfoldable pub pick : Macros → List (List String × String) → Bytes → Bytes
unfolding any_defined
pick m [] otherwise = otherwise
pick m ((names, id) ∷ rows) otherwise =
    if any_defined m names then codes id else pick m rows otherwise

abbrev pub platforms : List (List String × String)
platforms =
    ("__linux" ∷ "__linux__" ∷ "linux" ∷ [], "Linux")
    ∷ ("__MSYS__" ∷ [], "MSYS")
    ∷ ("__CYGWIN__" ∷ [], "Cygwin")
    ∷ ("__MINGW32__" ∷ [], "MinGW")
    ∷ ("__APPLE__" ∷ [], "Darwin")
    ∷ ("_WIN32" ∷ "__WIN32__" ∷ "WIN32" ∷ [], "Windows")
    ∷ ("__FreeBSD__" ∷ "__FreeBSD" ∷ [], "FreeBSD")
    ∷ ("__NetBSD__" ∷ "__NetBSD" ∷ [], "NetBSD")
    ∷ ("__OpenBSD__" ∷ "__OPENBSD" ∷ [], "OpenBSD")
    ∷ ("__sun" ∷ "sun" ∷ [], "SunOS")
    ∷ ("_AIX" ∷ "__AIX" ∷ "__AIX__" ∷ "__aix" ∷ "__aix__" ∷ [], "AIX")
    ∷ ("__hpux" ∷ "__hpux__" ∷ [], "HP-UX")
    ∷ ("__HAIKU__" ∷ [], "Haiku")
    ∷ ("__BeOS" ∷ "__BEOS__" ∷ "_BEOS" ∷ [], "BeOS")
    ∷ ("__QNX__" ∷ "__QNXNTO__" ∷ [], "QNX")
    ∷ ("__tru64" ∷ "_tru64" ∷ "__TRU64__" ∷ [], "Tru64")
    ∷ ("__riscos" ∷ "__riscos__" ∷ [], "RISCos")
    ∷ ("__sinix" ∷ "__sinix__" ∷ "__SINIX__" ∷ [], "SINIX")
    ∷ ("__UNIX_SV__" ∷ [], "UNIX_SV")
    ∷ ("__bsdos__" ∷ [], "BSDOS")
    ∷ ("_MPRAS" ∷ "MPRAS" ∷ [], "MP-RAS")
    ∷ ("__osf" ∷ "__osf__" ∷ [], "OSF1")
    ∷ ("_SCO_SV" ∷ "SCO_SV" ∷ "sco_sv" ∷ [], "SCO_SV")
    ∷ ("__ultrix" ∷ "__ultrix__" ∷ "_ULTRIX" ∷ [], "ULTRIX")
    ∷ ("__XENIX__" ∷ "_XENIX" ∷ "XENIX" ∷ [], "Xenix")
    ∷ []

-- Under `__WATCOMC__`.
abbrev pub watcom_platforms : List (List String × String)
watcom_platforms =
    ("__LINUX__" ∷ [], "Linux")
    ∷ ("__DOS__" ∷ [], "DOS")
    ∷ ("__OS2__" ∷ [], "OS2")
    ∷ ("__WINDOWS__" ∷ [], "Windows3x")
    ∷ ("__VXWORKS__" ∷ [], "VxWorks")
    ∷ []

unfoldable pub platform_id : Macros → Bytes
unfolding pick
platform_id m = pick m platforms (
    if defined m "__WATCOMC__"
    then pick m watcom_platforms []
    else if defined m "__INTEGRITY"
    then (if defined m "INT_178B" then codes "Integrity178" else codes "Integrity")
    else if defined m "_ADI_COMPILER"
    then codes "ADSP"
    else [])
