-- ===== src/Launcher/Libraries.antt =====
-- src/launcher/preload.h: the libraries that the launcher is to load.
use touch_applauncherd.Common.{List, [], ◌∷◌, Text, codes}

unfoldable pub g_libs : List Text
g_libs =
    codes "/lib/libacl.so.1"
    ∷ codes "/lib/libattr.so.1"
    ∷ codes "/lib/libc-2.10.1.so"
    ∷ codes "/lib/libdl-2.10.1.so"
    ∷ codes "/lib/libgcc_s.so.1"
    ∷ codes "/lib/libglib-2.0.so.0"
    ∷ codes "/lib/libm-2.10.1.so"
    ∷ codes "/lib/libpcre.so.3"
    ∷ codes "/lib/libpthread-2.10.1.so"
    ∷ codes "/lib/libresolv-2.10.1.so"
    ∷ codes "/lib/librt-2.10.1.so"
    ∷ codes "/lib/libudev.so.0"
    ∷ codes "/lib/libuuid.so.1"
    ∷ codes "/usr/lib/gconv/UTF-16.so"
    ∷ codes "/usr/lib/libaegis_crypto.so.1"
    ∷ codes "/usr/lib/libarchive.so.2"
    ∷ codes "/usr/lib/libasound.so.2"
    ∷ codes "/usr/lib/libbmeipc.so.0"
    ∷ codes "/usr/lib/libbz2.so.1.0"
    ∷ codes "/usr/lib/libcallui0.so.2"
    ∷ codes "/usr/lib/libcares.so.2"
    ∷ codes "/usr/lib/libcdb.so.1"
    ∷ codes "/usr/lib/libcellular-qt.so.1"
    ∷ codes "/usr/lib/libcontentaction.so.0"
    ∷ codes "/usr/lib/libcontentmanager.so.0"
    ∷ codes "/usr/lib/libcontextsubscriber.so.0"
    ∷ codes "/usr/lib/libcreds2-qt.so.1"
    ∷ codes "/usr/lib/libcreds.so.2"
    ∷ codes "/usr/lib/libcrypto.so.0.9.8"
    ∷ codes "/usr/lib/libcurl.so.4"
    ∷ codes "/usr/lib/libdbus-1.so.3"
    ∷ codes "/usr/lib/libdbus-glib-1.so.2"
    ∷ codes "/usr/lib/libdsme_dbus_if.so.0.2.0"
    ∷ codes "/usr/lib/libdsme.so.0.2.0"
    ∷ codes "/usr/lib/libEGL_r125.so"
    ∷ codes "/usr/lib/libexempi.so.3"
    ∷ codes "/usr/lib/libexif.so.12"
    ∷ codes "/usr/lib/libexpat.so.1"
    ∷ codes "/usr/lib/libfontconfig.so.1"
    ∷ codes "/usr/lib/libfreetype.so.6"
    ∷ codes "/usr/lib/libgconf-2.so.4"
    ∷ codes "/usr/lib/libgeoengine-mapwidget.so.1"
    ∷ codes "/usr/lib/libgeoengine.so.1"
    ∷ codes "/usr/lib/libgio-2.0.so.0"
    ∷ codes "/usr/lib/libGLESv2_r125.so"
    ∷ codes "/usr/lib/libglslcompiler_r125.so"
    ∷ codes "/usr/lib/libgmodule-2.0.so.0"
    ∷ codes "/usr/lib/libgobject-2.0.so.0"
    ∷ codes "/usr/lib/libgstbase-0.10.so.0"
    ∷ codes "/usr/lib/libgstinterfaces-0.10.so.0"
    ∷ codes "/usr/lib/libgstreamer-0.10.so.0"
    ∷ codes "/usr/lib/libgstvideo-0.10.so.0"
    ∷ codes "/usr/lib/libgthread-2.0.so.0"
    ∷ codes "/usr/lib/libICE.so.6"
    ∷ codes "/usr/lib/libicudata.so.44"
    ∷ codes "/usr/lib/libicui18n.so.44"
    ∷ codes "/usr/lib/libicuuc.so.44"
    ∷ codes "/usr/lib/libidn.so.11"
    ∷ codes "/usr/lib/libIMGegl_r125.so"
    ∷ codes "/usr/lib/libiphb.so.0"
    ∷ codes "/usr/lib/libjpeg.so.62"
    ∷ codes "/usr/lib/liblocationextras.so.1"
    ∷ codes "/usr/lib/liblocationpicker.so.0"
    ∷ codes "/usr/lib/libmeegotouchcore.so.0"
    ∷ codes "/usr/lib/libmeegotouchextensions.so.0"
    ∷ codes "/usr/lib/libmeegotouchsettings.so.0"
    ∷ codes "/usr/lib/libmeegotouchtheme-nokia-views.so.0"
    ∷ codes "/usr/lib/libmeegotouchviews.so.0"
    ∷ codes "/usr/lib/libmessagingif0.so.0"
    ∷ codes "/usr/lib/libmoi.so.0"
    ∷ codes "/usr/lib/libMOS.so.1"
    ∷ codes "/usr/lib/libpackage-manager-dbus-qt.so.0"
    ∷ codes "/usr/lib/libpng12.so.0"
    ∷ codes "/usr/lib/libpulse.so.0"
    ∷ codes "/usr/lib/libpvr2d_r125.so"
    ∷ codes "/usr/lib/libpvrPVR2D_DRI2WSEGL_r125.so"
    ∷ codes "/usr/lib/libqmlog.so.0"
    ∷ codes "/usr/lib/libqmsystem.so.1"
    ∷ codes "/usr/lib/libQtCore.so.4"
    ∷ codes "/usr/lib/libQtDBus.so.4"
    ∷ codes "/usr/lib/libQtDeclarative.so.4"
    ∷ codes "/usr/lib/libQtGui.so.4"
    ∷ codes "/usr/lib/libQtLocation.so.1"
    ∷ codes "/usr/lib/libQtMultimediaKit.so.1"
    ∷ codes "/usr/lib/libQtNetwork.so.4"
    ∷ codes "/usr/lib/libQtOpenGL.so.4"
    ∷ codes "/usr/lib/libQtScript.so.4"
    ∷ codes "/usr/lib/libQtScriptTools.so.4"
    ∷ codes "/usr/lib/libQtServiceFramework.so.1"
    ∷ codes "/usr/lib/libQtSql.so.4"
    ∷ codes "/usr/lib/libQtSvg.so.4"
    ∷ codes "/usr/lib/libQtTest.so.4"
    ∷ codes "/usr/lib/libqttracker.so.1~6"
    ∷ codes "/usr/lib/libQtWebKit.so.4"
    ∷ codes "/usr/lib/libQtXmlPatterns.so.4"
    ∷ codes "/usr/lib/libQtXml.so.4"
    ∷ codes "/usr/lib/libquillimagefilter.so.1"
    ∷ codes "/usr/lib/libquillmetadata.so.1"
    ∷ codes "/usr/lib/libquill.so.1"
    ∷ codes "/usr/lib/librelevance.so.0"
    ∷ codes "/usr/lib/libsensorclient.so.1"
    ∷ codes "/usr/lib/libsensordatatypes.so.1"
    ∷ codes "/usr/lib/libsmartsearch.so.0"
    ∷ codes "/usr/lib/libSM.so.6"
    ∷ codes "/usr/lib/libsndfile.so.1"
    ∷ codes "/usr/lib/libsqlite3.so.0"
    ∷ codes "/usr/lib/libsrv_um_r125.so"
    ∷ codes "/usr/lib/libssl.so.0.9.8"
    ∷ codes "/usr/lib/libstdc++.so.6"
    ∷ codes "/usr/lib/libsysinfo.so.0"
    ∷ codes "/usr/lib/libthumbnailer.so.0"
    ∷ codes "/usr/lib/libtimed.so.0"
    ∷ codes "/usr/lib/libWrtDialogsProvider.so.1"
    ∷ codes "/usr/lib/libWrtIpcClient.so.1"
    ∷ codes "/usr/lib/libWrtRuntimeCore.so.1"
    ∷ codes "/usr/lib/libWrtSecureStorage.so.1"
    ∷ codes "/usr/lib/libWrtSecurityManager.so.1"
    ∷ codes "/usr/lib/libWrtSettings.so.1"
    ∷ codes "/usr/lib/libWrtWidgetCore.so.1"
    ∷ codes "/usr/lib/libWrtWidgetUtils.so.1"
    ∷ codes "/usr/lib/libX11.so.6"
    ∷ codes "/usr/lib/libXau.so.6"
    ∷ codes "/usr/lib/libxcb.so.1"
    ∷ codes "/usr/lib/libXdamage.so.1"
    ∷ codes "/usr/lib/libXdmcp.so.6"
    ∷ codes "/usr/lib/libXext.so.6"
    ∷ codes "/usr/lib/libXfixes.so.3"
    ∷ codes "/usr/lib/libXi.so.6"
    ∷ codes "/usr/lib/libxml2.so.2"
    ∷ codes "/usr/lib/libXrandr.so.2"
    ∷ codes "/usr/lib/libXrender.so.1"
    ∷ codes "/usr/lib/libz.so.1"
    ∷ codes "/usr/bin/single-instance"
    ∷ []
