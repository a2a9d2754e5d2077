-- ===== src/Build/Header.antt =====
-- build.rs, `generate_header`: the text of the C header.
use embuer.Base.{List, [], ◌∷◌, ◌++◌}
use embuer.Text.{Text, text}

-- Its lines, each of which ends with a line feed.
abbrev types : List Text
types =
    text "/**"
    ∷ text " * Embuer C Library"
    ∷ text " * "
    ∷ text " * Auto-generated from Rust source code."
    ∷ text " * DO NOT EDIT THIS FILE MANUALLY - it will be overwritten."
    ∷ text " * "
    ∷ text " * C interface for interacting with the Embuer update service."
    ∷ text " */"
    ∷ text ""
    ∷ text "#ifndef EMBUER_H"
    ∷ text "#define EMBUER_H"
    ∷ text ""
    ∷ text "#ifdef __cplusplus"
    ∷ text "extern \"C\" {"
    ∷ text "#endif"
    ∷ text ""
    ∷ text "#include <stdint.h>"
    ∷ text ""
    ∷ text "/**"
    ∷ text " * Opaque handle to the Embuer client"
    ∷ text " */"
    ∷ text "typedef struct embuer_client_t embuer_client_t;"
    ∷ text ""
    ∷ text "/**"
    ∷ text " * Status callback function type"
    ∷ text " * "
    ∷ text " * Parameters:"
    ∷ text " * - status: Current status string (see possible values below)"
    ∷ text " * - details: Status details string"
    ∷ text " * - progress: Progress value (0-100, or -1 if N/A)"
    ∷ text " * - user_data: User-provided data pointer"
    ∷ text " * "
    ∷ text " * Possible status values:"
    ∷ text " * - \"Idle\": No update in progress"
    ∷ text " * - \"Checking\": Checking for updates"
    ∷ text " * - \"Clearing\": Clearing old deployments before installation"
    ∷ (text " * - \"Downloading\": Downloading update (progress will be "
        ++ text "0-100 if size is known)")
    ∷ text " * - \"Installing\": Installing update (progress will be 0-100)"
    ∷ text " * - \"AwaitingConfirmation\": Update downloaded, awaiting user confirmation"
    ∷ (text " * - \"Completed\": Update completed successfully (details "
        ++ text "will show deployment name)")
    ∷ text " * - \"Failed\": Update failed (details will contain error message)"
    ∷ text " */"
    ∷ (text "typedef void (*StatusCallback)(const char* status, const "
        ++ text "char* details, int progress, void* user_data);")
    ∷ text ""
    ∷ text "/**"
    ∷ text " * Error codes"
    ∷ text " */"
    ∷ text "#define EMBUER_OK                    0   /* Success */"
    ∷ text "#define EMBUER_ERR_NULL_PTR         -1   /* Null pointer passed */"
    ∷ text "#define EMBUER_ERR_CONNECTION       -2   /* Connection error */"
    ∷ text "#define EMBUER_ERR_DBUS             -3   /* D-Bus error */"
    ∷ text "#define EMBUER_ERR_INVALID_STRING   -4   /* Invalid string encoding */"
    ∷ text "#define EMBUER_ERR_RUNTIME          -5   /* Runtime error */"
    ∷ (text "#define EMBUER_ERR_NO_PENDING_UPDATE -6   /* No pending "
        ++ text "update awaiting confirmation */")
    ∷ text ""
    ∷ []

abbrev requests : List Text
requests =
    text "/**"
    ∷ text " * Initialize a new Embuer client"
    ∷ text " * "
    ∷ text " * Returns:"
    ∷ text " * - Pointer to client on success"
    ∷ text " * - NULL on error"
    ∷ text " */"
    ∷ text "embuer_client_t* embuer_client_new(void);"
    ∷ text ""
    ∷ text "/**"
    ∷ text " * Free an Embuer client"
    ∷ text " * "
    ∷ text " * Parameters:"
    ∷ text " * - client: Client handle to free"
    ∷ text " */"
    ∷ text "void embuer_client_free(embuer_client_t* client);"
    ∷ text ""
    ∷ text "/**"
    ∷ text " * Get the boot deployment information"
    ∷ text " * "
    ∷ (text " * This returns both the subvolume ID and deployment name "
        ++ text "of the currently ")
    ∷ text " * running deployment."
    ∷ text " * "
    ∷ text " * Parameters:"
    ∷ text " * - client: Client handle"
    ∷ text " * - boot_id_out: Pointer to receive boot ID"
    ∷ (text " * - boot_name_out: Pointer to receive boot name string "
        ++ text "(must be freed with embuer_free_string)")
    ∷ text " * "
    ∷ text " * Returns:"
    ∷ text " * - EMBUER_OK on success"
    ∷ text " * - Error code on failure"
    ∷ text " */"
    ∷ text "int embuer_get_boot_info("
    ∷ text "    embuer_client_t* client,"
    ∷ text "    uint64_t* boot_id_out,"
    ∷ text "    char** boot_name_out"
    ∷ text ");"
    ∷ text ""
    ∷ text "/**"
    ∷ text " * Get the current update status"
    ∷ text " * "
    ∷ text " * Parameters:"
    ∷ text " * - client: Client handle"
    ∷ (text " * - status_out: Pointer to receive status string (must be "
        ++ text "freed with embuer_free_string)")
    ∷ (text " * - details_out: Pointer to receive details string (must "
        ++ text "be freed with embuer_free_string)")
    ∷ text " * - progress_out: Pointer to receive progress value (0-100, or -1 if N/A)"
    ∷ text " * "
    ∷ text " * Returns:"
    ∷ text " * - EMBUER_OK on success"
    ∷ text " * - Error code on failure"
    ∷ text " */"
    ∷ text "int embuer_get_status("
    ∷ text "    embuer_client_t* client,"
    ∷ text "    char** status_out,"
    ∷ text "    char** details_out,"
    ∷ text "    int* progress_out"
    ∷ text ");"
    ∷ text ""
    ∷ text "/**"
    ∷ text " * Install an update from a file"
    ∷ text " * "
    ∷ text " * Parameters:"
    ∷ text " * - client: Client handle"
    ∷ text " * - file_path: Path to the update file"
    ∷ (text " * - result_out: Pointer to receive result message (must be "
        ++ text "freed with embuer_free_string)")
    ∷ text " * "
    ∷ text " * Returns:"
    ∷ text " * - EMBUER_OK on success"
    ∷ text " * - Error code on failure"
    ∷ text " */"
    ∷ text "int embuer_install_from_file("
    ∷ text "    embuer_client_t* client,"
    ∷ text "    const char* file_path,"
    ∷ text "    char** result_out"
    ∷ text ");"
    ∷ text ""
    ∷ []

abbrev answers : List Text
answers =
    text "/**"
    ∷ text " * Install an update from a URL"
    ∷ text " * "
    ∷ text " * Parameters:"
    ∷ text " * - client: Client handle"
    ∷ text " * - url: URL to download the update from"
    ∷ (text " * - result_out: Pointer to receive result message (must be "
        ++ text "freed with embuer_free_string)")
    ∷ text " * "
    ∷ text " * Returns:"
    ∷ text " * - EMBUER_OK on success"
    ∷ text " * - Error code on failure"
    ∷ text " */"
    ∷ text "int embuer_install_from_url("
    ∷ text "    embuer_client_t* client,"
    ∷ text "    const char* url,"
    ∷ text "    char** result_out"
    ∷ text ");"
    ∷ text ""
    ∷ text "/**"
    ∷ text " * Free a string allocated by the library"
    ∷ text " * "
    ∷ text " * Parameters:"
    ∷ text " * - s: String to free (can be NULL)"
    ∷ text " */"
    ∷ text "void embuer_free_string(char* s);"
    ∷ text ""
    ∷ text "/**"
    ∷ text " * Get the pending update awaiting confirmation"
    ∷ text " * "
    ∷ text " * Parameters:"
    ∷ text " * - client: Client handle"
    ∷ (text " * - version_out: Pointer to receive version string (must "
        ++ text "be freed with embuer_free_string)")
    ∷ (text " * - changelog_out: Pointer to receive changelog string "
        ++ text "(must be freed with embuer_free_string)")
    ∷ (text " * - source_out: Pointer to receive source string (must be "
        ++ text "freed with embuer_free_string)")
    ∷ text " * "
    ∷ text " * Returns:"
    ∷ text " * - EMBUER_OK on success"
    ∷ text " * - EMBUER_ERR_NO_PENDING_UPDATE if no update is pending"
    ∷ text " * - Other error code on failure"
    ∷ text " */"
    ∷ text "int embuer_get_pending_update("
    ∷ text "    embuer_client_t* client,"
    ∷ text "    char** version_out,"
    ∷ text "    char** changelog_out,"
    ∷ text "    char** source_out"
    ∷ text ");"
    ∷ text ""
    ∷ text "/**"
    ∷ text " * Confirm or reject the pending update"
    ∷ text " * "
    ∷ text " * Parameters:"
    ∷ text " * - client: Client handle"
    ∷ text " * - accepted: Non-zero (1) to accept and install, zero (0) to reject"
    ∷ (text " * - result_out: Pointer to receive result message (must be "
        ++ text "freed with embuer_free_string)")
    ∷ text " * "
    ∷ text " * Returns:"
    ∷ text " * - EMBUER_OK on success"
    ∷ text " * - Error code on failure"
    ∷ text " */"
    ∷ text "int embuer_confirm_update("
    ∷ text "    embuer_client_t* client,"
    ∷ text "    int accepted,"
    ∷ text "    char** result_out"
    ∷ text ");"
    ∷ text ""
    ∷ text "/**"
    ∷ text " * Watch for status updates (blocking call)"
    ∷ text " * "
    ∷ (text " * This function will block and call the callback whenever "
        ++ text "the status changes.")
    ∷ text " * "
    ∷ text " * Parameters:"
    ∷ text " * - client: Client handle"
    ∷ text " * - callback: Function to call on status updates"
    ∷ text " * - user_data: User data to pass to the callback (can be NULL)"
    ∷ text " * "
    ∷ text " * Returns:"
    ∷ text " * - EMBUER_OK on success"
    ∷ text " * - Error code on failure"
    ∷ text " */"
    ∷ text "int embuer_watch_status("
    ∷ text "    embuer_client_t* client,"
    ∷ text "    StatusCallback callback,"
    ∷ text "    void* user_data"
    ∷ text ");"
    ∷ text ""
    ∷ text "#ifdef __cplusplus"
    ∷ text "}"
    ∷ text "#endif"
    ∷ text ""
    ∷ text "#endif /* EMBUER_H */"
    ∷ []

abbrev pub header_lines : List Text
header_lines = types ++ requests ++ answers

-- `\n` behind each line
unfoldable pub unlines : List Text → Text
unlines [] = []
unlines (l ∷ ls) = l ++ 10 ∷ unlines ls

unfoldable pub generate_header : Text
unfolding unlines
generate_header = unlines header_lines
